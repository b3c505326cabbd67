-- ===== src/Domain/Period.antt =====
-- internal/domain/period.go: the billing periods and their lengths.
pub mod Lengths
mod Tests
use Prim.Native.String.{String}
use lumi_panel.Base.{Option, none, some, List, [], ◌∷◌, ℤ, pos}

-- `unknown` is any string that is not one of the constants.
pub data Period : Type 0 where
  month : Period
  quarter : Period
  half_year : Period
  year : Period
  two_year : Period
  three_year : Period
  onetime : Period
  unknown : String → Period

-- The map `periodDays`.
unfoldable pub period_days_map : Period → Option ℤ
period_days_map month = some (pos 30)
period_days_map quarter = some (pos 90)
period_days_map half_year = some (pos 180)
period_days_map year = some (pos 365)
period_days_map two_year = some (pos 730)
period_days_map three_year = some (pos 1095)
period_days_map onetime = none
period_days_map (unknown s) = none

-- `none` is `ErrUnknownPeriod`, beside which the source returns zero days.
unfoldable pub period_days : Period → Option ℤ
unfolding period_days_map
period_days p = elim (period_days_map p) [ none ↦ none | some days ↦ some days ]

unfoldable pub known_periods : List Period
known_periods = month ∷ quarter ∷ half_year ∷ year ∷ two_year ∷ three_year ∷ []
