-- ===== src/Domain/Plan/Tests.antt =====
-- Runs of internal/domain/plan.go, and its theorems at concrete changes. Dates are those of the
-- Gregorian calendar.
use Prim.Native.String.{String}
use lumi_panel.Base.{
  ℕ, ◌+◌, ◌-◌, ◌*◌, ◌/◌, ◌<◌, ◌≡◌, ◌≢◌, ◌⊎◌, ◌↔◌, refl, arith, none, some, ℤ, pos, negsuc, pos_part,
  neg_part, ◌+ℤ◌, ◌-ℤ◌, ◌<ℤ◌, ◌≤ℤ◌,
}
use lumi_panel.Base.Word.{IsInt64, wrap64}
use lumi_panel.Time.{Instant, CivilDate, minute, day}
use lumi_panel.Time.Gregorian.{day_number, IsUtc}
use lumi_panel.Time.Gregorian.Dates.{date_of, date_of-IsDate}
use lumi_panel.Domain.Plan.{
  prorate, stack, deny, unknown_policy, change_denied, prorate_permanent, bad_period,
  unknown_change, PlanSnapshot, ChangeRequest, ChangeOutcome, replace, refused, granted, floor_div,
  ceil_div, apply_change, remaining_days,
}
use lumi_panel.Domain.Plan.Changes.{IsLive, apply_change_errors}
use lumi_panel.Domain.Plan.Prorating.{Prorates, IsProrated, apply_change-Prorates}
use lumi_panel.Domain.Plan.Days.{remaining_days_lem}
use lumi_panel.Domain.Plan.Stacking.{IsStacked, apply_change-stacks}

-- A location is a number of hours that its clocks are ahead of UTC.
abbrev civil : ℕ → Instant → CivilDate
civil zone t = date_of ((t + zone * (60 * minute)) / day)

abbrev date : ℕ → ℕ → ℕ → ℕ → Instant
date y m d zone = day_number (record { year = y; month = m; day = d }) * day - zone * (60 * minute)

date-IsUtc : IsUtc date 0
unfolding day_number
date-IsUtc = record { midnight = λ c v. omega arith }

abbrev days_later : Instant → ℤ → Instant
days_later t n = t + pos_part n * day

abbrev basic : PlanSnapshot
basic = record { id = pos 1; transfer_bytes = pos 1000; period_days = pos 30; price = pos 900 }

abbrev larger : PlanSnapshot
larger = record { id = pos 2; transfer_bytes = pos 4000; period_days = pos 30; price = pos 2000 }

abbrev request : ChangeRequest ℕ
request = record {
  policy = stack;
  old_plan = basic;
  new_plan = larger;
  current = record {
    transfer_bytes = pos 1000;
    used_bytes = pos 700;
    expired_at = some (20 * day + 5);
  };
  at = 10 * day + 7;
  loc = none;
}

runs :
    (apply_change 0 civil date days_later (record request { policy = prorate })
      ≡ granted (record {
        mode = replace;
        expired_at = some (20 * day + 5);
        transfer_bytes = pos 1333;
        used_bytes = pos 0;
        charge = pos 366;
        credit = pos 0;
      }))
    × (apply_change 0 civil date days_later (record request { policy = deny })
        ≡ refused change_denied)
    × (floor_div (negsuc 6) (pos 2) ≡ negsuc 3)
    × (ceil_div (negsuc 6) (pos 2) ≡ negsuc 2)
unfolding apply_change day_number date_of floor_div ceil_div wrap64 pos_part neg_part
runs = (refl, refl, refl, refl)

apply_change_errors_example :
    ((apply_change 0 civil date days_later request ≡ refused bad_period) ↔ (
      (pos 30 ≤ℤ pos 0) ⊎ ((stack ≡ prorate) × (some (20 * day + 5) ≢ none) × (pos 30 ≤ℤ pos 0))))
    × ((apply_change 0 civil date days_later request ≡ refused change_denied)
        ↔ ((pos 0 <ℤ pos 30) × (stack ≡ deny) × IsLive (some (20 * day + 5)) (10 * day + 7)))
    × ((apply_change 0 civil date days_later request ≡ refused prorate_permanent)
        ↔ ((pos 0 <ℤ pos 30) × (stack ≡ prorate) × (some (20 * day + 5) ≡ none)))
    × ((apply_change 0 civil date days_later request ≡ refused unknown_change)
        ↔ ((pos 0 <ℤ pos 30) × ((s : String) × (stack ≡ unknown_policy s))))
apply_change_errors_example = apply_change_errors 0 civil date days_later request

later : (t : Instant) (n : ℤ) → pos 0 <ℤ n → t < days_later t n
unfolding pos_part neg_part
later t n h = ground arith

positive : pos 0 <ℤ pos 30
unfolding pos_part neg_part
positive = omega arith

fits : IsInt64 (pos 1000 +ℤ pos 4000)
unfolding pos_part neg_part ◌+ℤ◌
fits = record { below = omega arith; above = omega arith }

apply_change-stacks_example :
    (out : ChangeOutcome) × (apply_change 0 civil date days_later request ≡ granted out)
    × IsStacked request out
apply_change-stacks_example =
    apply_change-stacks 0 civil date days_later later request refl positive fits

abbrev prorating : ChangeRequest ℕ
prorating = record request { policy = prorate }

prorating-Prorates : Prorates 0 civil date prorating (20 * day + 5) 900 2000 30 30 4000 10
unfolding remaining_days day_number date_of wrap64 pos_part neg_part ◌-ℤ◌
prorating-Prorates = record {
  policy = refl;
  expires = refl;
  pays_old = refl;
  pays_new = refl;
  lasts_old = refl;
  lasts_new = refl;
  allows = refl;
  remains = refl;
  some_old = omega arith;
  some_new = omega arith;
  fits_old = omega arith;
  fits_new = omega arith;
  fits_bytes = omega arith;
}

apply_change-Prorates_example :
    (out : ChangeOutcome) × (apply_change 0 civil date days_later prorating ≡ granted out)
    × IsProrated (20 * day + 5) 900 2000 30 30 4000 10 out
apply_change-Prorates_example =
    apply_change-Prorates 0 civil date days_later prorating (20 * day + 5) 900 2000 30 30 4000 10
      prorating-Prorates

-- Three hours to midnight in UTC, and past midnight at the location, on the same days.
remaining_days_lem_example :
    remaining_days 0 civil date (9 * day + 75_600_000_000_000) (20 * day + 5) (some 8) ≡ pos 10
unfolding day_number date_of
remaining_days_lem_example =
    remaining_days_lem 0 civil date date-IsUtc (9 * day + 75_600_000_000_000) (20 * day + 5)
      (some 8) (date_of-IsDate 10) (date_of-IsDate 20) (omega arith)
