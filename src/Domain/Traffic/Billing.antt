-- ===== src/Domain/Traffic/Billing.antt =====
-- The arithmetic behind the check of internal/domain/traffic.go.
use native.Mathlib.Nat.{mul-le-mul}
use lumi_panel.Base.{
  ℕ, ◌+◌, ◌*◌, ◌/◌, ◌^◌, ◌≤◌, ◌<◌, ◌≡◌, ◌↔◌, arith, none, some, ℤ, pos, negsuc, pos_part, neg_part,
  ◌≤ℤ◌, ◌<ℤ◌, ◌+ℤ◌, ◌⊎◌,
}
use lumi_panel.Base.Word.{add64-pos, mul64-pos, div64-pos}
use lumi_panel.Domain.Traffic.{
  validate_delta, billed_bytes, valid, negative_delta, implausible_delta, invalid_rate,
}

-- What the check promises of the reported numbers.
pub record IsPlausible (up down rate : ℤ) : Type 0 where
  pub up_nonneg : pos 0 ≤ℤ up
  pub down_nonneg : pos 0 ≤ℤ down
  pub total_le : up +ℤ down ≤ℤ pos (2 ^ 47)
  pub rate_pos : pos 0 <ℤ rate

-- The check accepts a report exactly when both directions are non-negative, their exact sum is
-- within the maximum and the rate is positive. No input overflows on the way to being checked.
pub validate_delta_iff :
    (up down rate : ℤ) → (validate_delta up down rate ≡ none) ↔ IsPlausible up down rate
unfolding validate_delta valid pos_part neg_part ◌+ℤ◌
validate_delta_iff (pos u) (pos d) r = ground (arith, add64-pos u d)
validate_delta_iff (pos u) (negsuc d) r = ground arith
validate_delta_iff (negsuc u) d r = ground arith

-- A report with a negative direction is refused as negative whatever else is wrong with it; one
-- that is not, as implausible if it exceeds the maximum; and as an invalid rate only otherwise.
pub validate_delta_errors :
    (up down rate : ℤ)
    → ((validate_delta up down rate ≡ some negative_delta) ↔ ((up <ℤ pos 0) ⊎ (down <ℤ pos 0)))
      × ((validate_delta up down rate ≡ some implausible_delta)
          ↔ ((pos 0 ≤ℤ up) × (pos 0 ≤ℤ down) × (pos (2 ^ 47) <ℤ up +ℤ down)))
      × ((validate_delta up down rate ≡ some invalid_rate)
          ↔ ((pos 0 ≤ℤ up) × (pos 0 ≤ℤ down) × (up +ℤ down ≤ℤ pos (2 ^ 47)) × (rate ≤ℤ pos 0)))
unfolding validate_delta valid pos_part neg_part ◌+ℤ◌
validate_delta_errors (pos u) (pos d) r = ground (arith, add64-pos u d)
validate_delta_errors (pos u) (negsuc d) r = ground arith
validate_delta_errors (negsuc u) d r = ground arith

billed_bytes_nat :
    (u d r : ℕ)
    → u + d ≤ 2 ^ 47
    → r < 2 ^ 15
    → billed_bytes (pos u) (pos d) (pos r) ≡ pos ((u + d) * r / 100)
unfolding billed_bytes
billed_bytes_nat u d r h k =
    let p : (u + d) * r ≤ 2 ^ 47 * 2 ^ 15 = mul-le-mul {m₂ = 2 ^ 15} h (omega arith) in
    rw (add64-pos u d (omega arith))
      (rw (mul64-pos (u + d) r (omega arith)) (div64-pos _ 100 (omega arith)))

at_parts :
    (up down rate : ℤ)
    → IsPlausible up down rate
    → rate <ℤ pos (2 ^ 15)
    → billed_bytes up down rate ≡ pos ((pos_part up + pos_part down) * pos_part rate / 100)
unfolding pos_part neg_part ◌+ℤ◌
at_parts (pos u) (pos d) (pos r) h k =
    billed_bytes_nat u d r (ground (arith, h.total_le)) (omega arith)
at_parts (pos u) (pos d) (negsuc r) h k = absurd (omega (arith, h.rate_pos))
at_parts (pos u) (negsuc d) r h k = absurd (omega (arith, h.down_nonneg))
at_parts (negsuc u) d r h k = absurd (omega (arith, h.up_nonneg))

-- A rate that fits int16.
abbrev pub FitsRate : ℤ → Type 0
FitsRate rate = rate <ℤ pos (2 ^ 15)

-- On a report that passed the check, at an int16 rate, the billed bytes are the exact total times
-- the rate over 100, rounded down: no step of the int64 arithmetic wraps, and the amount is not
-- negative.
pub billed_bytes_exact :
    (up down rate : ℤ)
    → validate_delta up down rate ≡ none
    → FitsRate rate
    → billed_bytes up down rate ≡ pos ((pos_part up + pos_part down) * pos_part rate / 100)
billed_bytes_exact up down rate accepted fits =
    at_parts up down rate ((validate_delta_iff up down rate).0 accepted) fits

pos_part-add : (a b : ℤ) → pos 0 ≤ℤ a → pos 0 ≤ℤ b → pos_part (a +ℤ b) ≡ pos_part a + pos_part b
unfolding pos_part neg_part ◌+ℤ◌
pos_part-add a b h k = ground arith

total-le :
    (a b : ℤ) → pos 0 ≤ℤ a → pos 0 ≤ℤ b → a +ℤ b ≤ℤ pos (2 ^ 47) → pos_part a + pos_part b ≤ 2 ^ 47
unfolding pos_part neg_part ◌+ℤ◌
total-le a b h k t = ground arith

rate_lt : (rate : ℤ) → pos 0 <ℤ rate → FitsRate rate → pos_part rate < 2 ^ 15
unfolding pos_part neg_part
rate_lt (pos r) h k = omega arith
rate_lt (negsuc r) h k = absurd (omega arith)

-- The total and the rate of an accepted report are small enough for any int64 product.
amount_fits : (n r : ℕ) → n ≤ 2 ^ 47 → r < 2 ^ 15 → n * r / 100 < 2 ^ 63
amount_fits n r h k =
    let p : n * r ≤ 2 ^ 47 * 2 ^ 15 = mul-le-mul {m₂ = 2 ^ 15} h (omega arith) in omega arith

pub billed_bytes-fits :
    (up down rate : ℤ)
    → validate_delta up down rate ≡ none
    → FitsRate rate
    → pos_part (billed_bytes up down rate) < 2 ^ 63
unfolding pos_part neg_part
billed_bytes-fits up down rate accepted fits =
    let h = (validate_delta_iff up down rate).0 accepted in
    rw (at_parts up down rate h fits) (
      amount_fits (pos_part up + pos_part down) (pos_part rate)
        (total-le up down h.up_nonneg h.down_nonneg h.total_le) (rate_lt rate h.rate_pos fits))

floor_split :
    (a b a' b' r : ℕ)
    → let parts = pos ((a + b) * r / 100) +ℤ pos ((a' + b') * r / 100) in
      let whole = pos ((a + a' + (b + b')) * r / 100) in
      (parts ≤ℤ whole) × (whole ≤ℤ parts +ℤ pos 1)
unfolding pos_part neg_part ◌+ℤ◌
floor_split a b a' b' r = ground arith

-- Where the parts and the whole pass the check, at an int16 rate, splitting a delta into two
-- reports never bills more than reporting it at once, and bills at most one byte less.
pub billed_bytes_split :
    (u₁ d₁ u₂ d₂ rate : ℤ)
    → validate_delta u₁ d₁ rate ≡ none
    → validate_delta u₂ d₂ rate ≡ none
    → validate_delta (u₁ +ℤ u₂) (d₁ +ℤ d₂) rate ≡ none
    → FitsRate rate
    → let parts = billed_bytes u₁ d₁ rate +ℤ billed_bytes u₂ d₂ rate in
      let whole = billed_bytes (u₁ +ℤ u₂) (d₁ +ℤ d₂) rate in
      (parts ≤ℤ whole) × (whole ≤ℤ parts +ℤ pos 1)
billed_bytes_split u₁ d₁ u₂ d₂ rate h₁ h₂ h f =
    let p₁ = (validate_delta_iff u₁ d₁ rate).0 h₁ in
    let p₂ = (validate_delta_iff u₂ d₂ rate).0 h₂ in
    let up : pos_part (u₁ +ℤ u₂) ≡ pos_part u₁ + pos_part u₂ =
      pos_part-add u₁ u₂ p₁.up_nonneg p₂.up_nonneg in
    let down : pos_part (d₁ +ℤ d₂) ≡ pos_part d₁ + pos_part d₂ =
      pos_part-add d₁ d₂ p₁.down_nonneg p₂.down_nonneg in
    rw
      (
        billed_bytes_exact u₁ d₁ rate h₁ f,
        billed_bytes_exact u₂ d₂ rate h₂ f,
        billed_bytes_exact (u₁ +ℤ u₂) (d₁ +ℤ d₂) rate h f,
        up,
        down,
      )
      (floor_split (pos_part u₁) (pos_part d₁) (pos_part u₂) (pos_part d₂) (pos_part rate))
