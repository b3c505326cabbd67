-- ===== src/Time/Gregorian.antt =====
-- The Gregorian calendar, in which package time counts, from 1 January of year 1.
pub mod Years
pub mod Dates
use lumi_panel.Base.{
  ℕ, zero, suc, ◌+◌, ◌-◌, ◌*◌, ◌/◌, ◌%◌, ◌≤◌, ◌≡◌, Bool, ◌&&◌, ◌||◌, not, ◌==◌, if◌then◌else◌,
}
use lumi_panel.Time.{Instant, day, CivilDate}

unfoldable pub is_leap : ℕ → Bool
is_leap y = (y % 4 == 0) && (not (y % 100 == 0) || (y % 400 == 0))

unfoldable pub days_in : ℕ → ℕ → ℕ
unfolding is_leap
days_in y m =
    if m == 2
    then (if is_leap y then 29 else 28)
    else if (m == 4) || ((m == 6) || ((m == 9) || (m == 11)))
    then 30
    else 31

-- The days of the first months of a year.
unfoldable pub days_before_month : ℕ → ℕ → ℕ
unfolding days_in
days_before_month y zero = 0
days_before_month y (suc m) = days_before_month y m + days_in y (suc m)

-- The days from 1 January of year 1 to a date.
unfoldable pub day_number : CivilDate → ℕ
unfolding days_before_month
day_number c =
    let p = c.year - 1 in
    p * 365 + p / 4 - p / 100 + p / 400 + days_before_month c.year (c.month - 1) + (c.day - 1)

-- A date of the calendar, from year 1 on.
pub record IsDate (c : CivilDate) : Type 0 where
  pub from_year : 1 ≤ c.year
  pub from_month : 1 ≤ c.month
  pub to_month : c.month ≤ 12
  pub from_day : 1 ≤ c.day
  pub to_day : c.day ≤ days_in c.year c.month

-- What package time documents of `time.Date` at midnight in UTC: at a date of the calendar it gives
-- the instant that many days of 24 hours behind the zero time.
pub record IsUtc {Location : Type 0} (date : ℕ → ℕ → ℕ → Location → Instant) (utc : Location)
    : Type 0 where
  pub midnight : (c : CivilDate) → IsDate c → date c.year c.month c.day utc ≡ day_number c * day
