-- ===== src/Time/Gregorian/Years.antt =====
-- The lengths of months and years in the Gregorian calendar.
use lumi_panel.Base.{
  ℕ, ◌+◌, ◌-◌, ◌*◌, ◌/◌, ◌%◌, ◌≤◌, ◌≡◌, refl, arith, ◌==◌, if◌then◌else◌, Bool-cases, inl, inr,
}
use lumi_panel.Time.Gregorian.{is_leap, days_in, days_before_month}

pub days_in_bounds : (y m : ℕ) → (28 ≤ days_in y m) × (days_in y m ≤ 31)
unfolding days_in
days_in_bounds y m = ground arith

-- The days of the years before a year.
unfoldable pub before_year : ℕ → ℕ
before_year y = let p = y - 1 in p * 365 + p / 4 - p / 100 + p / 400

year_days : (y : ℕ) → days_before_month y 12 ≡ (if is_leap y then 366 else 365)
unfolding days_before_month days_in
year_days y = elim (Bool-cases (is_leap y)) [ inl e ↦ rw e refl | inr e ↦ rw e refl ]

step_4 : (p : ℕ) → (p + 1) / 4 ≡ p / 4 + (if (p + 1) % 4 == 0 then 1 else 0)
step_4 p = ground arith

step_100 : (p : ℕ) → (p + 1) / 100 ≡ p / 100 + (if (p + 1) % 100 == 0 then 1 else 0)
step_100 p = ground arith

step_400 : (p : ℕ) → (p + 1) / 400 ≡ p / 400 + (if (p + 1) % 400 == 0 then 1 else 0)
step_400 p = ground arith

fewer : (p : ℕ) → p / 100 ≤ p / 4
fewer p = omega arith

within_4 : (p : ℕ) → (p % 100 ≡ 0) → p % 4 ≡ 0
within_4 p h = omega arith

within_100 : (p : ℕ) → (p % 400 ≡ 0) → p % 100 ≡ 0
within_100 p h = omega arith

pub before_year-step :
    (p : ℕ) → before_year (p + 2) ≡ before_year (p + 1) + days_before_month (p + 1) 12
unfolding before_year is_leap
before_year-step p = rw year_days (
    ground (arith, step_4 p, step_100 p, step_400 p, fewer p, within_4 (p + 1), within_100 (p + 1)))
