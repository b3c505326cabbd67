-- ===== src/Domain/Traffic/Tests.antt =====
-- Runs of internal/domain/traffic.go, and its theorems at concrete reports.
use lumi_panel.Base.{
  ◌^◌, ◌≡◌, refl, none, some, ◌↔◌, pos, negsuc, ◌+ℤ◌, ◌≤ℤ◌, pos_part, neg_part, ◌<ℤ◌, ◌⊎◌,
}
use lumi_panel.Domain.Traffic.{
  validate_delta, billed_bytes, negative_delta, implausible_delta, invalid_rate,
}
use lumi_panel.Domain.Traffic.Billing.{validate_delta_errors}

runs :
    (validate_delta (pos 7) (negsuc 0) (pos 0) ≡ some negative_delta)
    × (validate_delta (pos (2 ^ 47)) (pos 1) (pos 0) ≡ some implausible_delta)
    × (validate_delta (pos 3) (pos 4) (pos 0) ≡ some invalid_rate)
    × (billed_bytes (pos 3) (pos 4) (pos 150) ≡ pos 10)
unfolding validate_delta billed_bytes pos_part neg_part
runs = (refl, refl, refl, refl)

accepted : validate_delta (pos 3) (pos 4) (pos 150) ≡ none
unfolding validate_delta pos_part neg_part
accepted = refl

validate_delta_errors_example :
    ((validate_delta (pos 3) (negsuc 4) (pos 0) ≡ some negative_delta)
      ↔ ((pos 3 <ℤ pos 0) ⊎ (negsuc 4 <ℤ pos 0)))
    × ((validate_delta (pos 3) (negsuc 4) (pos 0) ≡ some implausible_delta)
        ↔ ((pos 0 ≤ℤ pos 3) × (pos 0 ≤ℤ negsuc 4) × (pos (2 ^ 47) <ℤ pos 3 +ℤ negsuc 4)))
    × ((validate_delta (pos 3) (negsuc 4) (pos 0) ≡ some invalid_rate) ↔ (
        (pos 0 ≤ℤ pos 3)
        × (pos 0 ≤ℤ negsuc 4)
        × (pos 3 +ℤ negsuc 4 ≤ℤ pos (2 ^ 47))
        × (pos 0 ≤ℤ pos 0)))
validate_delta_errors_example = validate_delta_errors (pos 3) (negsuc 4) (pos 0)
