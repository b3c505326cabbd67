-- ===== src/Domain/Reset/Next.antt =====
-- The next reset of internal/domain/reset.go in a calendar.
use lumi_panel.Base.{
  ℕ, ◌%◌, ◌≤◌, ◌<◌, ◌≡◌, inl, inr, refl, sym, ap, ◌∙◌, arith, not, ltb, if◌then◌else◌, Bool-cases,
  Option, none, some,
}
use lumi_panel.Time.{Instant, CivilDate}
use lumi_panel.Domain.Reset.{
  bucket_size, align_bucket, ResetPolicy, monthly_first, monthly_signup, never, unknown_policy,
  zero_time, following, monthly_anchor, next_first, next_signup, next_reset,
}
use lumi_panel.Domain.Reset.Calendar.{Era, IsEraMonth, IsCalendar}
use lumi_panel.Domain.Reset.Anchors.{
  clamp, anchor, IsNextAnchor, monthly_anchor-anchor, anchor-bucket, following-IsEraMonth,
  anchor-IsNextAnchor, following-IsNextAnchor, first-passed,
}

-- The location of a call: a nil one is that of UTC.
abbrev pub located : {Location : Type 0} → Location → Option Location → Location
located utc none = utc
located utc (some l) = l

align_bucket-boundary : (t : Instant) → t % bucket_size ≡ 0 → align_bucket t ≡ t
unfolding align_bucket
align_bucket-boundary t h = omega arith

-- The choice between two instants, aligned, by whether the first is ahead.
aligned_choice :
    (P : Instant → Type 0) (now a b r q : Instant)
    → r ≡ a
    → q ≡ b
    → align_bucket a ≡ a
    → align_bucket b ≡ b
    → (now < a → P a)
    → (a ≤ now → P b)
    → P (align_bucket (if not (ltb now r) then q else r))
aligned_choice P now a b r q ra qb ea eb ahead past = elim (Bool-cases (ltb now a)) [
  | inl e ↦ rw (ra, qb, e, ea) (ahead (ground arith))
  | inr e ↦ rw (ra, qb, e, eb) (past (ground arith))
]

aligned_at :
    (P : Instant → Type 0) (r a : Instant) → r ≡ a → align_bucket a ≡ a → P a → P (align_bucket r)
aligned_at P r a e al h = rw (e, al) h

module _ {Location : Type 0} (civil : Location → Instant → CivilDate)
    (date : ℕ → ℕ → ℕ → Location → Instant) (add_date : Location → Instant → ℕ → ℕ → ℕ → Instant)
    (era : Era) where
  -- What a policy asks of the reset that follows an instant.
  abbrev pub Replenishes : Location → ResetPolicy → Instant → Instant → Instant → Type 0
  Replenishes loc monthly_first signup now r = IsNextAnchor civil date add_date era loc 1 now r
  Replenishes loc monthly_signup signup now r =
      IsNextAnchor civil date add_date era loc (civil loc signup).day now r
  Replenishes loc never signup now r = r ≡ zero_time
  Replenishes loc (unknown_policy _) signup now r = r ≡ zero_time

  module _ (utc loc : Location) (cal : IsCalendar civil date add_date era loc) where
    anchor-aligned :
        (day y m : ℕ)
        → 1 ≤ day
        → IsEraMonth era y m
        → align_bucket (anchor civil date add_date era loc day y m)
          ≡ anchor civil date add_date era loc day y m
    anchor-aligned day y m h im =
        align_bucket-boundary (anchor civil date add_date era loc day y m)
          (anchor-bucket civil date add_date era loc cal day y m h im)

    next_signup-IsNextAnchor :
        (signup now : Instant)
        → let l = civil loc now in
          IsEraMonth era l.year l.month
          → l.year < era.last
          → IsNextAnchor civil date add_date era loc
              (civil loc signup).day
              now
              (next_signup civil date signup now loc)
    unfolding next_signup
    next_signup-IsNextAnchor signup now im more =
        let day = (civil loc signup).day in
        let l = civil loc now in
        let h = (cal.civil_valid signup).1 in
        let (y, m) = following l.year l.month in
        let jm = following-IsEraMonth era l.year l.month im more in
        aligned_choice (λ r. IsNextAnchor civil date add_date era loc day now r) now
          (anchor civil date add_date era loc day l.year l.month)
          (anchor civil date add_date era loc day y m)
          (monthly_anchor civil date l.year l.month day loc) (monthly_anchor civil date y m day loc)
          (monthly_anchor-anchor civil date add_date era loc cal day l.year l.month im)
          (monthly_anchor-anchor civil date add_date era loc cal day y m jm)
          (anchor-aligned day l.year l.month h im) (anchor-aligned day y m h jm)
          (anchor-IsNextAnchor civil date add_date era loc cal day now h im)
          (following-IsNextAnchor civil date add_date era loc cal day now h im jm)

    clamp-one : (y m : ℕ) → IsEraMonth era y m → clamp 1 (era.days_in y m) ≡ 1
    clamp-one y m im = ground (arith, cal.lengths y m im)

    anchor-first :
        (y m : ℕ) → IsEraMonth era y m → anchor civil date add_date era loc 1 y m ≡ date y m 1 loc
    anchor-first y m im = ap (λ d. date y m d loc) (clamp-one y m im)

    next_first-IsNextAnchor :
        (now : Instant)
        → let l = civil loc now in
          IsEraMonth era l.year l.month
          → l.year < era.last
          → IsNextAnchor civil date add_date era loc 1 now
              (next_first civil date add_date utc now loc)
    unfolding next_first
    next_first-IsNextAnchor now im more =
        let l = civil loc now in
        let (y, m) = following l.year l.month in
        let jm = following-IsEraMonth era l.year l.month im more in
        aligned_at (λ r. IsNextAnchor civil date add_date era loc 1 now r)
          (add_date loc (date l.year l.month 1 loc) 0 1 0)
          (anchor civil date add_date era loc 1 y m)
          (cal.add_month l.year l.month im ∙ sym (anchor-first y m jm))
          (anchor-aligned 1 y m (omega arith) jm)
          (following-IsNextAnchor civil date add_date era loc cal 1 now (omega arith) im jm
            (first-passed civil date add_date era loc cal now im))

  next_reset-Replenishes :
      (utc : Location) (loc : Option Location) (policy : ResetPolicy) (signup now : Instant)
      → IsCalendar civil date add_date era (located utc loc)
      → let l = civil (located utc loc) now in
        IsEraMonth era l.year l.month
        → l.year < era.last
        → Replenishes
            (located utc loc)
            policy
            signup
            now
            (next_reset civil date add_date utc policy signup now loc)
  unfolding next_reset
  next_reset-Replenishes utc none monthly_first signup now cal im more =
      next_first-IsNextAnchor utc utc cal now im more
  next_reset-Replenishes utc none monthly_signup signup now cal im more =
      next_signup-IsNextAnchor utc utc cal signup now im more
  next_reset-Replenishes utc none never signup now cal im more = refl
  next_reset-Replenishes utc none (unknown_policy s) signup now cal im more = refl
  next_reset-Replenishes utc (some l) monthly_first signup now cal im more =
      next_first-IsNextAnchor utc l cal now im more
  next_reset-Replenishes utc (some l) monthly_signup signup now cal im more =
      next_signup-IsNextAnchor utc l cal signup now im more
  next_reset-Replenishes utc (some l) never signup now cal im more = refl
  next_reset-Replenishes utc (some l) (unknown_policy s) signup now cal im more = refl

  -- In a calendar that, from one year to another, has a midnight for each day, a whole number of
  -- buckets from the zero time, and at an instant of these years but the last: the next reset of a
  -- monthly policy is the first instant after `now` that is the midnight of its day in some month of
  -- these years, of the last day where the month is shorter. That day is the first, or the day of
  -- the signup, all in the location given, where none means UTC. Any other policy gives the zero
  -- time.
  pub next_reset_lem :
      (utc : Location) (loc : Option Location) (policy : ResetPolicy) (signup now : Instant)
      → IsCalendar civil date add_date era (located utc loc)
      → era.first ≤ (civil (located utc loc) now).year
      → (civil (located utc loc) now).year < era.last
      → Replenishes
          (located utc loc)
          policy
          signup
          now
          (next_reset civil date add_date utc policy signup now loc)
  unfolding next_reset
  next_reset_lem utc loc policy signup now cal from to =
      let l = located utc loc in
      let im : IsEraMonth era (civil l now).year (civil l now).month =
        ((cal.civil_valid now).0, (from, omega (arith, to))) in
      next_reset-Replenishes utc loc policy signup now cal im to
