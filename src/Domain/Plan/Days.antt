-- ===== src/Domain/Plan/Days.antt =====
-- The days that remain, in internal/domain/plan.go.
use lumi_panel.Base.{
  ℕ, ◌-◌, ◌*◌, ◌/◌, ◌+◌, ◌^◌, ◌<◌, ◌≤◌, ◌≡◌, arith, Bool-cases, inl, inr, Option, none, some, pos,
  negsuc, pos_part, neg_part, ◌-ℤ◌, ltb_ℤ, leb, quot, if◌then◌else◌,
}
use lumi_panel.Base.Word.{div64, wrap64, div64-pos}
use lumi_panel.Time.{Instant, day, CivilDate}
use lumi_panel.Time.Gregorian.{day_number, IsDate, IsUtc}
use lumi_panel.Domain.Plan.{time_sub, remaining_days}

time_sub-later : (t u : ℕ) → u ≤ t → t - u < 2 ^ 63 → time_sub t u ≡ pos (t - u)
unfolding time_sub pos_part neg_part ◌-ℤ◌
time_sub-later t u h k = ground arith

time_sub-earlier : (t u : ℕ) → t < u → (k : ℕ) × (time_sub t u ≡ negsuc k) × (k < 2 ^ 63)
unfolding time_sub pos_part neg_part ◌-ℤ◌
time_sub-earlier t u h =
    let k : ℕ = if leb (u - t) (2 ^ 63) then u - t - 1 else 2 ^ 63 - 1 in
    (k, ground arith, ground arith)

-- A negative duration has no day that remains.
none_left :
    (k : ℕ)
    → k < 2 ^ 63
    → let days = div64 (negsuc k) (pos day) in (if ltb_ℤ days (pos 0) then pos 0 else days) ≡ pos 0
unfolding div64 wrap64 quot pos_part neg_part
none_left k h = ground arith

whole_days : (e a : ℕ) → a ≤ e → (e * day - a * day) / day ≡ e - a
whole_days e a h = omega arith

-- A difference of whole days that a Duration holds, and one that is not positive.
days_between :
    (e a : ℕ)
    → e ≤ a + 106_751
    → let days = div64 (time_sub (e * day) (a * day)) (pos day) in
      (if ltb_ℤ days (pos 0) then pos 0 else days) ≡ pos (e - a)
unfolding pos_part neg_part
days_between e a h = elim (Bool-cases (leb a e)) [
  | inl q ↦
      rw
        (
          time_sub-later (e * day) (a * day) (ground arith) (omega arith),
          div64-pos (e * day - a * day) day (omega arith),
          whole_days e a (ground arith),
        )
        (ground arith)
  | inr q ↦
      let (k, t, fits) = time_sub-earlier (e * day) (a * day) (ground arith) in
      let past : e - a ≡ 0 = ground arith in rw (t, past) (none_left k fits)
]

module _ {Location : Type 0} (utc : Location) (civil : Location → Instant → CivilDate)
    (date : ℕ → ℕ → ℕ → Location → Instant) (is_utc : IsUtc date utc) where
  -- Where `time.Date` in UTC counts days of 24 hours in the Gregorian calendar, as package time
  -- documents: whatever clock changes the location has and whatever its times of day, the days that
  -- remain are those from the calendar date of the change to that of the expiry, both read in the
  -- location given, or in UTC if none is, and none if the expiry has passed. The dates are from
  -- year 1 on, and the expiry lies at most 106,751 days behind the change.
  pub remaining_days_lem :
      (at expired_at : Instant) (loc : Option Location)
      → let l : Location = elim loc [ none ↦ utc | some x ↦ x ] in
        let a = civil l at in
        let e = civil l expired_at in
        IsDate a
        → IsDate e
        → day_number e ≤ day_number a + 106_751
        → remaining_days utc civil date at expired_at loc ≡ pos (day_number e - day_number a)
  unfolding remaining_days
  remaining_days_lem at expired_at loc va ve h =
      let l : Location = elim loc [ none ↦ utc | some x ↦ x ] in
      let a = civil l at in
      let e = civil l expired_at in
      rw (is_utc.midnight a va, is_utc.midnight e ve) (days_between (day_number e) (day_number a) h)
