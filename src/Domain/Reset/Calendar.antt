-- ===== src/Domain/Reset/Calendar.antt =====
-- What internal/domain/reset.go relies on in package time, from one year to another: the calendar of
-- a location whose days each have a midnight in those years, a whole number of buckets away from the
-- zero time. UTC has such midnights from year 1 on. Other locations have them since their clocks
-- left local mean time, where no clock change skips a midnight (package time leaves open which
-- instant `Date` gives for one that is skipped).
use lumi_panel.Base.{ℕ, ◌+◌, ◌%◌, ◌≤◌, ◌<◌, ◌≡◌, ◌↔◌, ◌⊎◌}
use lumi_panel.Time.{Instant, CivilDate}
use lumi_panel.Domain.Reset.{bucket_size, following}

-- A date comes no later than another: by the year, then the month, then the day.
abbrev pub IsNoLater : CivilDate → CivilDate → Type 0
IsNoLater c e =
    (c.year < e.year)
    ⊎ ((c.year ≡ e.year) × ((c.month < e.month) ⊎ ((c.month ≡ e.month) × (c.day ≤ e.day))))

abbrev pub IsMonth : ℕ → Type 0
IsMonth m = (1 ≤ m) × (m ≤ 12)

-- The years that the calendar covers, and the lengths of their months.
pub record Era : Type 0 where
  pub first : ℕ
  pub last : ℕ
  pub days_in : ℕ → ℕ → ℕ

abbrev pub IsEraYear : Era → ℕ → Type 0
IsEraYear era y = (era.first ≤ y) × (y ≤ era.last)

abbrev pub IsEraMonth : Era → ℕ → ℕ → Type 0
IsEraMonth era y m = IsMonth m × IsEraYear era y

abbrev pub IsEraDate : Era → CivilDate → Type 0
IsEraDate era c = IsEraMonth era c.year c.month × (1 ≤ c.day) × (c.day ≤ era.days_in c.year c.month)

pub record IsCalendar {Location : Type 0} (civil : Location → Instant → CivilDate)
    (date : ℕ → ℕ → ℕ → Location → Instant) (add_date : Location → Instant → ℕ → ℕ → ℕ → Instant)
    (era : Era) (loc : Location) : Type 0 where
  pub lengths : (y m : ℕ) → IsEraMonth era y m → (28 ≤ era.days_in y m) × (era.days_in y m ≤ 31)
  pub civil_valid : (t : Instant) → IsMonth (civil loc t).month × (1 ≤ (civil loc t).day)
  pub civil_date : (c : CivilDate) → IsEraDate era c → civil loc (date c.year c.month c.day loc) ≡ c
  pub date_order :
      (c : CivilDate) (t : Instant)
      → IsEraDate era c
      → IsEraYear era (civil loc t).year
      → (date c.year c.month c.day loc ≤ t) ↔ IsNoLater c (civil loc t)
  pub day_zero :
      (y m : ℕ) → IsEraMonth era y m → (civil loc (date y (m + 1) 0 loc)).day ≡ era.days_in y m
  pub add_month :
      (y m : ℕ)
      → IsEraMonth era y m
      → add_date loc (date y m 1 loc) 0 1 0 ≡ date (following y m).0 (following y m).1 1 loc
  pub midnight_bucket :
      (c : CivilDate) → IsEraDate era c → date c.year c.month c.day loc % bucket_size ≡ 0
