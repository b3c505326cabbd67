-- ===== src/Time/Gregorian/Dates.antt =====
-- The dates of the Gregorian calendar in their order, and the date of each day by its number.
use lumi_panel.Base.{
  ℕ, zero, suc, ◌+◌, ◌-◌, ◌≤◌, ◌<◌, ◌≡◌, ◌∙◌, refl, sym, ap, arith, inl, inr, ◌⊎◌, ◌↔◌, ltb,
  if◌then◌else◌, Bool-cases,
}
use lumi_panel.Time.{CivilDate}
use lumi_panel.Time.Gregorian.{days_in, days_before_month, day_number, IsDate}
use lumi_panel.Time.Gregorian.Years.{days_in_bounds, before_year, before_year-step}

-- A date comes before another: by the year, then the month, then the day.
abbrev pub IsEarlier : CivilDate → CivilDate → Type 0
IsEarlier c e =
    (c.year < e.year)
    ⊎ ((c.year ≡ e.year) × ((c.month < e.month) ⊎ ((c.month ≡ e.month) × (c.day < e.day))))

unfoldable pub next : CivilDate → CivilDate
unfolding days_in
next c =
    if ltb c.day (days_in c.year c.month)
    then record c { day = c.day + 1 }
    else if ltb c.month 12
    then record { year = c.year; month = c.month + 1; day = 1 }
    else record { year = c.year + 1; month = 1; day = 1 }

-- The date of the day with this number.
unfoldable pub date_of : ℕ → CivilDate
unfolding next
date_of zero = record { year = 1; month = 1; day = 1 }
date_of (suc k) = next (date_of k)

pub number_parts :
    (c : CivilDate)
    → day_number c ≡ before_year c.year + days_before_month c.year (c.month - 1) + (c.day - 1)
unfolding day_number before_year
number_parts c = refl

pub january : (y : ℕ) → days_before_month y (1 - 1) ≡ 0
unfolding days_before_month
january y = refl

pub month_step :
    (y m : ℕ) → 1 ≤ m → days_before_month y m ≡ days_before_month y (m - 1) + days_in y m
unfolding days_before_month
month_step y zero h = absurd (omega (arith, h))
month_step y (suc m) h = ap (λ n. days_before_month y n + days_in y (suc m)) (omega arith)

month_mono : (y m n : ℕ) → days_before_month y m ≤ days_before_month y (m + n)
month_mono y m zero =
    let same : days_before_month y (m + 0) ≡ days_before_month y m =
      ap (days_before_month y) (omega arith) in
    omega (arith, same)
month_mono y m (suc n) =
    let rest = month_mono y m n in
    let step = month_step y (m + suc n) (omega arith) in
    let same : days_before_month y (m + suc n - 1) ≡ days_before_month y (m + n) =
      ap (days_before_month y) (omega arith) in
    omega (arith, rest, step, same)

month_later : (y m n : ℕ) → m ≤ n → days_before_month y m ≤ days_before_month y n
month_later y m n h =
    let same : days_before_month y (m + (n - m)) ≡ days_before_month y n =
      ap (days_before_month y) (omega arith) in
    omega (arith, month_mono y m (n - m), same)

year_mono : (p n : ℕ) → before_year (p + 1) ≤ before_year (p + n + 1)
year_mono p zero =
    let same : before_year (p + 0 + 1) ≡ before_year (p + 1) = ap before_year (omega arith) in
    omega (arith, same)
year_mono p (suc n) =
    let rest = year_mono p n in
    let step = before_year-step (p + n) in
    let same : before_year (p + n + 2) ≡ before_year (p + suc n + 1) =
      ap before_year (omega arith) in
    omega (arith, rest, step, same)

year_later : (y z : ℕ) → 1 ≤ y → y ≤ z → before_year y ≤ before_year z
year_later y z h k =
    let from : before_year (y - 1 + 1) ≡ before_year y = ap before_year (omega arith) in
    let to : before_year (y - 1 + (z - y) + 1) ≡ before_year z = ap before_year (omega arith) in
    omega (arith, year_mono (y - 1) (z - y), from, to)

pub year_step : (y : ℕ) → 1 ≤ y → before_year (y + 1) ≡ before_year y + days_before_month y 12
year_step y h =
    let p = y - 1 in
    let at : p + 1 ≡ y = omega arith in
    let behind : before_year (p + 2) ≡ before_year (y + 1) = ap before_year (omega arith) in
    sym behind ∙ (before_year-step p ∙ rw at refl)

-- A date lies in its month, and its month in its year.
in_year :
    (c : CivilDate) → IsDate c → day_number c < before_year c.year + days_before_month c.year 12
in_year c v =
    let step = month_step c.year c.month v.from_month in
    let later = month_later c.year c.month 12 v.to_month in
    omega (arith, number_parts c, step, later, v.from_day, v.to_day)

number_later : (c e : CivilDate) → IsDate c → IsDate e → IsEarlier c e → day_number c < day_number e
number_later c e v u (inl y) =
    let later = year_later (c.year + 1) e.year (omega arith) (omega (arith, y)) in
    omega (arith, in_year c v, year_step c.year v.from_year, later, number_parts e)
number_later c e v u (inr (y, inl m)) =
    let step = month_step c.year c.month v.from_month in
    let later = month_later c.year c.month (e.month - 1) (omega (arith, m)) in
    let same : before_year c.year + days_before_month c.year (e.month - 1)
        ≡ before_year e.year + days_before_month e.year (e.month - 1) =
      ap (λ z. before_year z + days_before_month z (e.month - 1)) y in
    omega (arith, number_parts c, number_parts e, step, later, same, v.from_day, v.to_day)
number_later c e v u (inr (y, inr (m, d))) =
    let same : before_year c.year + days_before_month c.year (c.month - 1)
        ≡ before_year e.year + days_before_month e.year (e.month - 1) =
      rw (y, m) refl in
    omega (arith, number_parts c, number_parts e, same, d, v.from_day)

next-IsDate : (c : CivilDate) → IsDate c → IsDate (next c)
unfolding next
next-IsDate c v = ground (
  arith,
  v.from_year,
  v.from_month,
  v.to_month,
  v.from_day,
  v.to_day,
  days_in_bounds c.year (c.month + 1),
  days_in_bounds (c.year + 1) 1,
)

next_cases :
    (c : CivilDate)
    → ((c.day < days_in c.year c.month) × (next c ≡ record c { day = c.day + 1 }))
      ⊎ (((days_in c.year c.month ≤ c.day)
            × (c.month < 12)
            × (next c ≡ record { year = c.year; month = c.month + 1; day = 1 }))
          ⊎ ((days_in c.year c.month ≤ c.day)
              × (12 ≤ c.month)
              × (next c ≡ record { year = c.year + 1; month = 1; day = 1 })))
unfolding next
next_cases c = elim (Bool-cases (ltb c.day (days_in c.year c.month))) [
  | inl e ↦ inl (ground arith, rw e refl)
  | inr e ↦ elim (Bool-cases (ltb c.month 12)) [
    | inl f ↦ inr (inl (ground arith, ground arith, rw (e, f) refl))
    | inr f ↦ inr (inr (ground arith, ground arith, rw (e, f) refl))
  ]
]

day_number-next : (c : CivilDate) → IsDate c → day_number (next c) ≡ day_number c + 1
day_number-next c v = elim (next_cases c) [
  | inl (d, e) ↦
      rw e (omega (arith, number_parts c, number_parts (record c { day = c.day + 1 }), v.from_day))
  | inr (inl (d, m, e)) ↦
      let step = month_step c.year c.month v.from_month in
      let same : days_before_month c.year (c.month + 1 - 1) ≡ days_before_month c.year c.month =
        ap (days_before_month c.year) (omega arith) in
      let parts = number_parts (record { year = c.year; month = c.month + 1; day = 1 }) in
      rw e (omega (arith, number_parts c, parts, step, same, d, v.from_day, v.to_day))
  | inr (inr (d, m, e)) ↦
      let step = month_step c.year c.month v.from_month in
      let full : days_before_month c.year 12 ≡ days_before_month c.year c.month =
        ap (days_before_month c.year) (omega (arith, m, v.to_month)) in
      let parts = number_parts (record { year = c.year + 1; month = 1; day = 1 }) in
      let none_before = january (c.year + 1) in
      rw e (
        omega (
          arith,
          number_parts c,
          parts,
          step,
          full,
          none_before,
          year_step c.year v.from_year,
          d,
          v.from_day,
          v.to_day,
        ))
]

pub date_of-IsDate : (k : ℕ) → IsDate (date_of k)
unfolding date_of days_in
date_of-IsDate zero = record {
  from_year = omega arith;
  from_month = omega arith;
  to_month = omega arith;
  from_day = omega arith;
  to_day = omega arith;
}
date_of-IsDate (suc k) = next-IsDate (date_of k) (date_of-IsDate k)

pub day_number-date_of : (k : ℕ) → day_number (date_of k) ≡ k
unfolding date_of day_number
day_number-date_of zero = refl
day_number-date_of (suc k) =
    omega (arith, day_number-next (date_of k) (date_of-IsDate k), day_number-date_of k)

date_cases : (c e : CivilDate) → IsEarlier c e ⊎ ((c ≡ e) ⊎ IsEarlier e c)
date_cases c e = ground arith

-- The date of the number of a date is that date.
pub date_of-day_number : (c : CivilDate) → IsDate c → date_of (day_number c) ≡ c
date_of-day_number c v =
    let e = date_of (day_number c) in
    let u = date_of-IsDate (day_number c) in
    let same = day_number-date_of (day_number c) in
    elim (date_cases e c) [
      | inl h ↦ absurd (omega (arith, number_later e c u v h, same))
      | inr (inl h) ↦ h
      | inr (inr h) ↦ absurd (omega (arith, number_later c e v u h, same))
    ]

-- A day lies before another exactly when its date does.
pub number_order : (c : CivilDate) (k : ℕ) → IsDate c → (k < day_number c) ↔ IsEarlier (date_of k) c
number_order c k v =
    let e = date_of k in
    let u = date_of-IsDate k in
    let same = day_number-date_of k in
    (
      λ h. elim (date_cases e c) [
        | inl b ↦ b
        | inr (inl q) ↦ absurd (omega (arith, ap day_number q, same, h))
        | inr (inr b) ↦ absurd (omega (arith, number_later c e v u b, same, h))
      ],
      λ b. omega (arith, number_later e c u v b, same),
    )
