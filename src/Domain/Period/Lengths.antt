-- ===== src/Domain/Period/Lengths.antt =====
-- Which periods of internal/domain/period.go have a length.
use lumi_panel.Base.{
  ◌≡◌, ◌≢◌, ◌⊎◌, ◌↔◌, refl, arith, none, some, List, [], ◌∷◌, ℤ, pos, ◌<ℤ◌, pos_part, neg_part,
}
use lumi_panel.Domain.Period.{Period, period_days, known_periods}

-- A period stands in a list.
abbrev pub Lists : Period → List Period → Type 0
Lists p [] = ⊥
Lists p (q ∷ ps) = (q ≡ p) ⊎ Lists p ps

-- Each period of the list has a length, longer than the days given and shorter than the next.
abbrev pub AreAscending : ℤ → List Period → Type 0
AreAscending days [] = Unit
AreAscending days (p ∷ ps) = (n : ℤ) × (period_days p ≡ some n) × (days <ℤ n) × AreAscending n ps

-- A period has a length exactly when it is one of the listed ones, whose lengths are positive and
-- come in ascending order; a data pack and an unknown period have none.
pub period_days_lem :
    ((p : Period) → (period_days p ≢ none) ↔ Lists p known_periods)
    × AreAscending (pos 0) known_periods
unfolding known_periods period_days pos_part neg_part
period_days_lem = (
  λ p. ground arith,
  (
    pos 30,
    refl,
    omega arith,
    (
      pos 90,
      refl,
      omega arith,
      (
        pos 180,
        refl,
        omega arith,
        (
          pos 365,
          refl,
          omega arith,
          (pos 730, refl, omega arith, (pos 1095, refl, omega arith, tt)),
        ),
      ),
    ),
  ),
)
