-- ===== src/Domain/Traffic.antt =====
-- internal/domain/traffic.go: the check of a reported delta and the billing arithmetic.
pub mod Billing
mod Tests
use lumi_panel.Base.{◌^◌, Bool, ◌||◌, Option, none, some, ℤ, pos, ltb_ℤ, not, if◌then◌else◌}
use lumi_panel.Base.Word.{add64, mul64, div64}

-- The errors of `ValidateDelta`.
pub data DeltaError : Type 0 where
  negative_delta invalid_rate implausible_delta : DeltaError

-- A `RateBP` is an int16; the conversion to int64 keeps its value.
abbrev pub rate_bp_unit : ℤ
rate_bp_unit = pos 100

abbrev pub max_report_bytes : ℤ
max_report_bytes = pos (2 ^ 47)

unfoldable pub valid : ℤ → Bool
valid r = ltb_ℤ (pos 0) r

unfoldable pub validate_delta : ℤ → ℤ → ℤ → Option DeltaError
unfolding valid add64
validate_delta up down rate =
    if ltb_ℤ up (pos 0) || ltb_ℤ down (pos 0)
    then some negative_delta
    else if ltb_ℤ max_report_bytes up
        || ltb_ℤ max_report_bytes down
        || ltb_ℤ max_report_bytes (add64 up down)
    then some implausible_delta
    else if not (valid rate)
    then some invalid_rate
    else none

unfoldable pub billed_bytes : ℤ → ℤ → ℤ → ℤ
unfolding add64 mul64 div64
billed_bytes up down rate = div64 (mul64 (add64 up down) rate) rate_bp_unit
