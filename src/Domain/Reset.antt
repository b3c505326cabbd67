-- ===== src/Domain/Reset.antt =====
-- internal/domain/reset.go: bucket alignment, the next reset, the test of the current period and
-- entitlement. The calendar and the time zones of package time are parameters.
pub mod Laws
pub mod Calendar
pub mod Anchors
pub mod Next
mod Runs
mod Tests
use Prim.Native.String.{String}
use lumi_panel.Base.{
  ℕ, ◌+◌, ◌*◌, Bool, true, not, ◌&&◌, Option, none, some, ltb, ltb_ℤ, if◌then◌else◌,
}
use lumi_panel.Time.{Instant, CivilDate, minute, before, after, truncate}
use lumi_panel.Domain.Quota.{SubQuota, active_at}

abbrev pub bucket_size : ℕ
bucket_size = 5 * minute

-- An instant has no location in the model, so `UTC()` is the identity.
unfoldable pub align_bucket : Instant → Instant
align_bucket t = truncate t bucket_size

unfoldable pub counts_toward_current_period : Instant → Option Instant → Bool
unfolding align_bucket
counts_toward_current_period bucket_at last_reset_at = elim last_reset_at [
  | none ↦ true
  | some t ↦ not (before bucket_at (align_bucket t))
]

unfoldable pub entitled : SubQuota → Instant → Bool
unfolding active_at
entitled s at = active_at s at && ltb_ℤ s.used_bytes s.transfer_bytes

-- `unknown_policy` is any string that is not one of the constants.
pub data ResetPolicy : Type 0 where
  monthly_first : ResetPolicy
  monthly_signup : ResetPolicy
  never : ResetPolicy
  unknown_policy : String → ResetPolicy

-- `time.Time{}`.
abbrev pub zero_time : Instant
zero_time = 0

-- The month behind a month.
unfoldable pub following : ℕ → ℕ → ℕ × ℕ
following y m = if ltb 12 (m + 1) then (y + 1, 1) else (y, m + 1)

-- `civil` reads a time in a location, `date` is `time.Date` at midnight, which takes a month or a
-- day out of range, and `add_date` is `AddDate` on a time in a location.
module _ {Location : Type 0} (civil : Location → Instant → CivilDate)
    (date : ℕ → ℕ → ℕ → Location → Instant) where
  unfoldable pub monthly_anchor : ℕ → ℕ → ℕ → Location → Instant
  monthly_anchor year month day loc =
      let last_day = (civil loc (date year (month + 1) 0 loc)).day in
      let day' = if ltb last_day day then last_day else day in date year month day' loc

  -- The case `ResetMonthlySignup`.
  unfoldable pub next_signup : Instant → Instant → Location → Instant
  unfolding align_bucket monthly_anchor following
  next_signup signup now loc =
      let s = civil loc signup in
      let l = civil loc now in
      let next = monthly_anchor l.year l.month s.day loc in
      let (y, m) = following l.year l.month in
      align_bucket (if not (after next now) then monthly_anchor y m s.day loc else next)

  module _ (add_date : Location → Instant → ℕ → ℕ → ℕ → Instant) (utc : Location) where
    -- The case `ResetMonthlyFirst`.
    unfoldable pub next_first : Instant → Location → Instant
    unfolding align_bucket
    next_first now loc =
        let l = civil loc now in align_bucket (add_date loc (date l.year l.month 1 loc) 0 1 0)

    unfoldable pub next_reset : ResetPolicy → Instant → Instant → Option Location → Instant
    unfolding next_first next_signup
    next_reset policy signup now loc =
        let loc' : Location = elim loc [ none ↦ utc | some l ↦ l ] in
        elim policy [
          | never ↦ zero_time
          | monthly_first ↦ next_first now loc'
          | monthly_signup ↦ next_signup signup now loc'
          | unknown_policy _ ↦ zero_time
        ]
