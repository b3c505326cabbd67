-- ===== src/Domain/Plan/Stacking.antt =====
-- Stacked and charged outcomes of internal/domain/plan.go.
use lumi_panel.Base.{
  ℕ, ltb, ◌<◌, ◌≡◌, refl, arith, false, Option, none, some, ℤ, pos, ◌+ℤ◌, ◌<ℤ◌, leb_ℤ,
  if◌then◌else◌,
}
use lumi_panel.Base.Word.{IsInt64, add64, add64_exact}
use lumi_panel.Time.{Instant, CivilDate}
use lumi_panel.Domain.Plan.{
  stack, ChangeRequest, extend, ChangeOutcome, granted, change_stack, change_by, apply_change,
}

-- The new expiry is none where there was none, and otherwise comes after the old one and after the
-- change.
abbrev pub IsExtended : Option Instant → Instant → Option Instant → Type 0
IsExtended none at none = Unit
IsExtended none at (some t) = ⊥
IsExtended (some e) at none = ⊥
IsExtended (some e) at (some t) = (e < t) × (at < t)

-- What a stacked change grants.
pub record IsStacked {Location : Type 0} (req : ChangeRequest Location) (out : ChangeOutcome)
    : Type 0 where
  pub mode : out.mode ≡ extend
  pub expiry : IsExtended req.current.expired_at req.at out.expired_at
  pub allowance : out.transfer_bytes ≡ req.current.transfer_bytes +ℤ req.new_plan.transfer_bytes
  pub counter : out.used_bytes ≡ req.current.used_bytes
  pub charge : out.charge ≡ req.new_plan.price

positive_period : (n : ℤ) → pos 0 <ℤ n → leb_ℤ n (pos 0) ≡ false
positive_period n h = ground arith

module _ {Location : Type 0} (utc : Location) (civil : Location → Instant → CivilDate)
    (date : ℕ → ℕ → ℕ → Location → Instant) (add_days : Instant → ℤ → Instant)
    (later : (t : Instant) (n : ℤ) → pos 0 <ℤ n → t < add_days t n) where
  extended :
      (o : Option Instant) (at : Instant) (n : ℤ)
      → pos 0 <ℤ n
      → IsExtended o at (elim o [
        | none ↦ none
        | some base ↦ some (add_days (if ltb base at then at else base) n)
      ])
  extended none at n h = tt
  extended (some e) at n h = ground (arith, later e n h, later at n h)

  -- Where adding days to an instant gives a later one, and the two allowances add up to an int64, a
  -- stacked change of a positive period is always granted. It keeps the counter, adds the
  -- allowances, charges the price, extends an expiry past the old one and past the change, and
  -- leaves a subscription that never expires so.
  pub apply_change-stacks :
      (req : ChangeRequest Location)
      → req.policy ≡ stack
      → pos 0 <ℤ req.new_plan.period_days
      → IsInt64 (req.current.transfer_bytes +ℤ req.new_plan.transfer_bytes)
      → (out : ChangeOutcome) × (apply_change utc civil date add_days req ≡ granted out)
        × IsStacked req out
  unfolding apply_change change_by change_stack
  apply_change-stacks req p h fits = (
    record {
      mode = extend;
      expired_at = elim req.current.expired_at [
        | none ↦ none
        | some base ↦
            some (add_days (if ltb base req.at then req.at else base) req.new_plan.period_days)
      ];
      transfer_bytes = add64 req.current.transfer_bytes req.new_plan.transfer_bytes;
      used_bytes = req.current.used_bytes;
      charge = req.new_plan.price;
      credit = pos 0;
    },
    rw (positive_period req.new_plan.period_days h, p) refl,
    record {
      mode = refl;
      expiry = extended req.current.expired_at req.at req.new_plan.period_days h;
      allowance = add64_exact req.current.transfer_bytes req.new_plan.transfer_bytes fits;
      counter = refl;
      charge = refl;
    },
  )
