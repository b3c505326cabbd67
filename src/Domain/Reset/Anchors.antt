-- ===== src/Domain/Reset/Anchors.antt =====
-- The monthly anchors of internal/domain/reset.go in a calendar.
use lumi_panel.Base.{ℕ, ◌%◌, ◌≤◌, ◌<◌, ◌≡◌, ◌↔◌, ◌⊎◌, inl, inr, refl, arith, ltb, if◌then◌else◌}
use lumi_panel.Time.{Instant, CivilDate}
use lumi_panel.Domain.Reset.{bucket_size, following, monthly_anchor}
use lumi_panel.Domain.Reset.Calendar.{
  IsNoLater, IsMonth, Era, IsEraYear, IsEraMonth, IsEraDate, IsCalendar,
}

-- The day of a month, or the last day of a month that is shorter.
abbrev pub clamp : ℕ → ℕ → ℕ
clamp day last = if ltb last day then last else day

-- A month comes before another.
abbrev IsBefore : ℕ → ℕ → ℕ → ℕ → Type 0
IsBefore y m y2 m2 = (y < y2) ⊎ ((y ≡ y2) × (m < m2))

month_cases : (y m y2 m2 : ℕ) → IsBefore y m y2 m2 ⊎ (((y ≡ y2) × (m ≡ m2)) ⊎ IsBefore y2 m2 y m)
month_cases y m y2 m2 = ground arith

-- The month behind one of an era's, where the era goes on for the whole of the next year.
pub following-IsEraMonth :
    (era : Era) (y m : ℕ)
    → IsEraMonth era y m
    → y < era.last
    → IsEraMonth era (following y m).0 (following y m).1
unfolding following
following-IsEraMonth era y m im h = ground arith

IsBefore-following : (y m : ℕ) → IsBefore y m (following y m).0 (following y m).1
unfolding following
IsBefore-following y m = ground arith

-- No month lies between a month and the one behind it.
following_cases :
    (y m y2 m2 : ℕ)
    → IsMonth m
    → IsMonth m2
    → IsBefore y2 m2 (following y m).0 (following y m).1
    → IsBefore y2 m2 y m ⊎ ((y2 ≡ y) × (m2 ≡ m))
unfolding following
following_cases y m y2 m2 im im2 h = ground arith

module _ {Location : Type 0} (civil : Location → Instant → CivilDate)
    (date : ℕ → ℕ → ℕ → Location → Instant) (add_date : Location → Instant → ℕ → ℕ → ℕ → Instant)
    (era : Era) (loc : Location) where
  -- The midnight of the day in a month, of the last day where the month is shorter.
  abbrev pub anchor : ℕ → ℕ → ℕ → Instant
  anchor day y m = date y m (clamp day (era.days_in y m)) loc

  -- The first anchor behind an instant.
  pub record IsNextAnchor (day : ℕ) (now r : Instant) : Type 0 where
    pub year : ℕ
    pub month : ℕ
    pub is_month : IsEraMonth era year month
    pub anchored : r ≡ anchor day year month
    pub later : now < r
    pub least : (y m : ℕ) → IsEraMonth era y m → (anchor day y m ≤ now) ⊎ (r ≤ anchor day y m)

  abbrev anchor_date : ℕ → ℕ → ℕ → CivilDate
  anchor_date day y m = record { year = y; month = m; day = clamp day (era.days_in y m) }

  module _ (cal : IsCalendar civil date add_date era loc) where
    anchor_date-IsEraDate :
        (day y m : ℕ) → 1 ≤ day → IsEraMonth era y m → IsEraDate era (anchor_date day y m)
    anchor_date-IsEraDate day y m h im = ground (arith, cal.lengths y m im)

    pub monthly_anchor-anchor :
        (day y m : ℕ) → IsEraMonth era y m → monthly_anchor civil date y m day loc ≡ anchor day y m
    unfolding monthly_anchor
    monthly_anchor-anchor day y m im = rw (cal.day_zero y m im) refl

    anchor_order :
        (day y m y2 m2 : ℕ)
        → 1 ≤ day
        → IsEraMonth era y m
        → IsEraMonth era y2 m2
        → IsNoLater (anchor_date day y m) (anchor_date day y2 m2)
        → anchor day y m ≤ anchor day y2 m2
    anchor_order day y m y2 m2 h im im2 le =
        let valid = anchor_date-IsEraDate day y2 m2 h im2 in
        (cal.date_order (anchor_date day y m) (anchor day y2 m2)
            (anchor_date-IsEraDate day y m h im)
            (rw (cal.civil_date (anchor_date day y2 m2) valid) im2.1)).1
          (rw (cal.civil_date (anchor_date day y2 m2) valid) le)

    -- An anchor lies ahead exactly when the date of the instant comes before its date.
    anchor_order_at :
        (day y m : ℕ) (t : Instant)
        → 1 ≤ day
        → IsEraMonth era y m
        → IsEraYear era (civil loc t).year
        → (anchor day y m ≤ t) ↔ IsNoLater (anchor_date day y m) (civil loc t)
    anchor_order_at day y m t h im it =
        cal.date_order (anchor_date day y m) t (anchor_date-IsEraDate day y m h im) it

    -- The anchor of a month before that of the instant lies behind.
    anchor-passed :
        (day y m : ℕ) (t : Instant)
        → 1 ≤ day
        → IsEraMonth era y m
        → IsEraYear era (civil loc t).year
        → IsBefore y m (civil loc t).year (civil loc t).month
        → anchor day y m ≤ t
    anchor-passed day y m t h im it before = (anchor_order_at day y m t h im it).1 (grind arith)

    -- The anchor of a month behind that of the instant lies ahead.
    anchor-ahead :
        (day y m : ℕ) (t : Instant)
        → 1 ≤ day
        → IsEraMonth era y m
        → IsEraYear era (civil loc t).year
        → IsBefore (civil loc t).year (civil loc t).month y m
        → t < anchor day y m
    anchor-ahead day y m t h im it before = grind (arith, anchor_order_at day y m t h im it)

    -- The anchors come in the order of the months.
    anchor-later :
        (day y m y2 m2 : ℕ)
        → 1 ≤ day
        → IsEraMonth era y m
        → IsEraMonth era y2 m2
        → IsBefore y m y2 m2
        → anchor day y m ≤ anchor day y2 m2
    anchor-later day y m y2 m2 h im im2 before = anchor_order day y m y2 m2 h im im2 (grind arith)

    anchor-same : (day y m y2 m2 : ℕ) → (y ≡ y2) × (m ≡ m2) → anchor day y m ≡ anchor day y2 m2
    anchor-same day y m y2 m2 (e, f) = rw (e, f) refl

    -- The anchor of the month of an instant, where it lies ahead, is the next one.
    pub anchor-IsNextAnchor :
        (day : ℕ) (now : Instant)
        → 1 ≤ day
        → let l = civil loc now in
          IsEraMonth era l.year l.month
          → now < anchor day l.year l.month
          → IsNextAnchor day now (anchor day l.year l.month)
    anchor-IsNextAnchor day now h im ahead =
        let l = civil loc now in
        record {
          year = l.year;
          month = l.month;
          is_month = im;
          anchored = refl;
          later = ahead;
          least = λ y m jm. elim (month_cases y m l.year l.month) [
            | inl b ↦ inl (anchor-passed day y m now h jm im.1 b)
            | inr (inl e) ↦ inr (omega (arith, anchor-same day y m l.year l.month e))
            | inr (inr a) ↦ inr (anchor-later day l.year l.month y m h im jm a)
          ];
        }

    -- Where it does not, the next one is the anchor of the month behind.
    pub following-IsNextAnchor :
        (day : ℕ) (now : Instant)
        → 1 ≤ day
        → let l = civil loc now in
          let (y, m) = following l.year l.month in
          IsEraMonth era l.year l.month
          → IsEraMonth era y m
          → anchor day l.year l.month ≤ now
          → IsNextAnchor day now (anchor day y m)
    following-IsNextAnchor day now h im jm past =
        let l = civil loc now in
        let (y, m) = following l.year l.month in
        let step = IsBefore-following l.year l.month in
        record {
          year = y;
          month = m;
          is_month = jm;
          anchored = refl;
          later = anchor-ahead day y m now h jm im.1 step;
          least = λ y2 m2 km. elim (month_cases y2 m2 y m) [
            | inl b ↦ elim (following_cases l.year l.month y2 m2 im.0 km.0 b) [
              | inl c ↦ inl (anchor-passed day y2 m2 now h km im.1 c)
              | inr e ↦ inl (omega (arith, anchor-same day y2 m2 l.year l.month e, past))
            ]
            | inr (inl e) ↦ inr (omega (arith, anchor-same day y2 m2 y m e))
            | inr (inr a) ↦ inr (anchor-later day y m y2 m2 h jm km a)
          ];
        }

    -- Each anchor is the boundary of a bucket.
    pub anchor-bucket :
        (day y m : ℕ) → 1 ≤ day → IsEraMonth era y m → anchor day y m % bucket_size ≡ 0
    anchor-bucket day y m h im =
        cal.midnight_bucket (anchor_date day y m) (anchor_date-IsEraDate day y m h im)

    -- The first day of the month of an instant has begun.
    pub first-passed :
        (t : Instant)
        → let l = civil loc t in IsEraMonth era l.year l.month → anchor 1 l.year l.month ≤ t
    first-passed t im =
        let l = civil loc t in
        let (_, from_one) = cal.civil_valid t in
        let (some_days, _) = cal.lengths l.year l.month im in
        (anchor_order_at 1 l.year l.month t (omega arith) im im.1).1
          (ground (arith, from_one, some_days))
