-- ===== src/Domain/Period/Tests.antt =====
-- Runs of internal/domain/period.go.
use lumi_panel.Base.{◌≡◌, refl, none, some, pos}
use lumi_panel.Domain.Period.{year, onetime, unknown, period_days}

runs :
    (period_days year ≡ some (pos 365))
    × (period_days onetime ≡ none)
    × (period_days (unknown "decade") ≡ none)
unfolding period_days
runs = (refl, refl, refl)
