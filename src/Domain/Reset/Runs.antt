-- ===== src/Domain/Reset/Runs.antt =====
-- The next reset of internal/domain/reset.go in UTC, by the Gregorian calendar.
use lumi_panel.Base.{
  ℕ, ◌+◌, ◌-◌, ◌*◌, ◌/◌, ◌%◌, ◌≤◌, ◌≡◌, ◌↔◌, ◌⊎◌, ◌∙◌, inl, inr, refl, ap, arith, Bool-cases, ltb,
  none,
}
use lumi_panel.Time.{Instant, day, CivilDate}
use lumi_panel.Time.Gregorian.{days_in, days_before_month, day_number, IsDate}
use lumi_panel.Time.Gregorian.Years.{days_in_bounds, before_year}
use lumi_panel.Time.Gregorian.Dates.{
  IsEarlier, date_of, date_of-IsDate, date_of-day_number, number_order, number_parts, month_step,
  year_step, january,
}
use lumi_panel.Domain.Reset.{bucket_size, monthly_first, monthly_signup, following, next_reset}
use lumi_panel.Domain.Reset.Calendar.{IsNoLater, Era, IsEraMonth, IsEraDate, IsCalendar}
use lumi_panel.Domain.Reset.Next.{Replenishes, next_reset_lem}

-- The only location is UTC.
data Place : Type 0 where
  utc : Place

abbrev era : Era
era = record { first = 1; last = 9999; days_in = days_in }

abbrev civil : Place → Instant → CivilDate
civil loc t = date_of (t / day)

-- A month or a day out of range runs on, or back.
unfoldable number : ℕ → ℕ → ℕ → ℕ
number y m d = before_year y + days_before_month y (m - 1) + d - 1

abbrev date : ℕ → ℕ → ℕ → Place → Instant
date y m d loc = number y m d * day

abbrev add_date : Place → Instant → ℕ → ℕ → ℕ → Instant
add_date loc t years months days =
    let c = civil loc t in date (c.year + years) (c.month + months) (c.day + days) loc

IsEraDate-IsDate : (c : CivilDate) → IsEraDate era c → IsDate c
IsEraDate-IsDate c ((m, y), d, e) = record {
  from_year = y.0;
  from_month = m.0;
  to_month = m.1;
  from_day = d;
  to_day = e;
}

number-day_number : (c : CivilDate) → 1 ≤ c.day → number c.year c.month c.day ≡ day_number c
unfolding number
number-day_number c h = omega (arith, number_parts c, h)

civil-date : (n : ℕ) → civil utc (n * day) ≡ date_of n
civil-date n = ap date_of (omega arith)

civil_date : (c : CivilDate) → IsEraDate era c → civil utc (date c.year c.month c.day utc) ≡ c
civil_date c h =
    civil-date (number c.year c.month c.day)
    ∙ (ap date_of (number-day_number c h.1) ∙ date_of-day_number c (IsEraDate-IsDate c h))

div_order : (n t : ℕ) → (n * day ≤ t) ↔ (n ≤ t / day)
div_order n t = ground arith

compared : (c e : CivilDate) → IsEarlier e c ⊎ IsNoLater c e
compared c e = ground arith

IsEarlier-IsNoLater : (c e : CivilDate) → IsEarlier e c → ¬ IsNoLater c e
IsEarlier-IsNoLater c e h k = ground arith

date_order :
    (c : CivilDate) (t : Instant)
    → IsEraDate era c
    → (date c.year c.month c.day utc ≤ t) ↔ IsNoLater c (civil utc t)
date_order c t h =
    let (f, g) = number_order c (t / day) (IsEraDate-IsDate c h) in
    let same = number-day_number c h.1 in
    let (p, q) = div_order (number c.year c.month c.day) t in
    (
      λ le. elim (compared c (civil utc t)) [
        | inl b ↦ absurd (omega (arith, g b, p le, same))
        | inr k ↦ k
      ],
      λ k. elim (Bool-cases (ltb (t / day) (day_number c))) [
        | inl b ↦ absurd (IsEarlier-IsNoLater c (civil utc t) (f (ground arith)) k)
        | inr b ↦ q (ground (arith, same))
      ],
    )

last_of :
    (y m : ℕ)
    → IsEraMonth era y m
    → IsEraDate era (record { year = y; month = m; day = days_in y m })
last_of y m h = (h, omega (arith, days_in_bounds y m), omega arith)

zeroth : (y m : ℕ) → 1 ≤ m → number y (m + 1) 0 ≡ number y m (days_in y m)
unfolding number
zeroth y m h =
    let same : days_before_month y (m + 1 - 1) ≡ days_before_month y m =
      ap (days_before_month y) (omega arith) in
    omega (arith, month_step y m h, same)

day_zero : (y m : ℕ) → IsEraMonth era y m → (civil utc (date y (m + 1) 0 utc)).day ≡ days_in y m
day_zero y m h =
    let same : number y (m + 1) 0 ≡ number y m (days_in y m) = zeroth y m h.0.0 in
    ap (λ n. (civil utc (n * day)).day) same
    ∙ ap (λ c. c.day)
        (civil_date (record { year = y; month = m; day = days_in y m }) (last_of y m h))

-- The first of the month behind the twelfth is that of the next year.
first_following :
    (y m : ℕ)
    → IsEraMonth era y m
    → number y (m + 1) 1 ≡ number (following y m).0 (following y m).1 1
unfolding following number
first_following y m h = elim (Bool-cases (ltb 12 (m + 1))) [
  | inl e ↦
      let full : days_before_month y (m + 1 - 1) ≡ days_before_month y 12 =
        ap (days_before_month y) (ground arith) in
      rw e (omega (arith, full, year_step y h.1.0, january (y + 1)))
  | inr e ↦ rw e refl
]

one_day : (y m : ℕ) → 1 ≤ days_in y m
one_day y m = omega (arith, days_in_bounds y m)

add_month :
    (y m : ℕ)
    → IsEraMonth era y m
    → add_date utc (date y m 1 utc) 0 1 0 ≡ date (following y m).0 (following y m).1 1 utc
add_month y m h =
    let first =
      civil_date (record { year = y; month = m; day = 1 }) (h, omega arith, one_day y m) in
    let y0 : y + 0 ≡ y = omega arith in rw (first, y0) (ap (λ n. n * day) (first_following y m h))

on_bucket : (n : ℕ) → n * day % bucket_size ≡ 0
on_bucket n = omega arith

utc-IsCalendar : IsCalendar civil date add_date era utc
utc-IsCalendar = record {
  lengths = λ y m h. days_in_bounds y m;
  civil_valid = λ t. let v = date_of-IsDate (t / day) in ((v.from_month, v.to_month), v.from_day);
  civil_date = civil_date;
  date_order = λ c t h it. date_order c t h;
  day_zero = day_zero;
  add_month = add_month;
  midnight_bucket = λ c h. on_bucket (number c.year c.month c.day);
}

abbrev signed_up : Instant
signed_up = date 1 1 31 utc + 36_000_000_000_000

-- The day of a signup on the 31st is the 28th of a month that has no more days.
clamps :
    (next_reset civil date add_date utc monthly_signup signed_up (date 1 2 5 utc) none
      ≡ date 1 2 28 utc)
    × (next_reset civil date add_date utc monthly_signup signed_up (date 1 2 28 utc) none
        ≡ date 1 3 31 utc)
    × (next_reset civil date add_date utc monthly_first signed_up (date 1 3 28 utc) none
        ≡ date 1 4 1 utc)
unfolding next_reset date_of number before_year days_before_month
clamps = (refl, refl, refl)

next_reset_lem_example :
    Replenishes civil date add_date era utc monthly_signup signed_up
      (date 1 2 5 utc)
      (next_reset civil date add_date utc monthly_signup signed_up (date 1 2 5 utc) none)
unfolding date_of number before_year days_before_month
next_reset_lem_example =
    next_reset_lem civil date add_date era utc none monthly_signup signed_up (date 1 2 5 utc)
      utc-IsCalendar (omega arith) (omega arith)
