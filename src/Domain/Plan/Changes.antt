-- ===== src/Domain/Plan/Changes.antt =====
-- The plan changes of internal/domain/plan.go, policy by policy.
use Prim.Native.String.{String}
use lumi_panel.Base.{
  ℕ, Bool-cases, Option-cases, ap, sym, leb→le, le→leb, ◌<◌, ◌≡◌, ◌≢◌, ◌⊎◌, inl, inr, ◌↔◌, refl,
  arith, true, Option, none, some, ℤ, pos, ◌<ℤ◌, ◌≤ℤ◌, leb_ℤ,
}
use lumi_panel.Time.{Instant, CivilDate}
use lumi_panel.Domain.Plan.{
  ChangePolicy, reset, prorate, stack, deny, unknown_policy, ChangeError, change_denied,
  prorate_permanent, bad_period, unknown_change, ChangeRequest, refused, change_reset, change_stack,
  prorated, change_by, apply_change,
}

-- A subscription that has not expired at an instant.
abbrev pub IsLive : Option Instant → Instant → Type 0
IsLive none at = Unit
IsLive (some e) at = at < e

from_bad :
    (e : ChangeError) (days : ℤ) (P : Type 0)
    → leb_ℤ days (pos 0) ≡ true
    → ((e ≡ bad_period) × (days ≤ℤ pos 0)) ⊎ ((pos 0 <ℤ days) × P)
    → refused bad_period ≡ refused e
from_bad e' days P q (inl (e, _)) = ap refused (sym e)
from_bad e' days P q (inr (lt, _)) = absurd (omega (arith, leb→le _ _ q, lt))

module _ {Location : Type 0} (utc : Location) (civil : Location → Instant → CivilDate)
    (date : ℕ → ℕ → ℕ → Location → Instant) (add_days : Instant → ℤ → Instant) where
  prorated-ne-refused :
      (req : ChangeRequest Location) (expiry : Instant) (e : ChangeError)
      → prorated utc civil date add_days req expiry ≢ refused e
  unfolding prorated
  prorated-ne-refused req expiry e q = cc

  prorate_bad_period :
      (req : ChangeRequest Location)
      → (change_by utc civil date add_days prorate req ≡ refused bad_period) ↔ (
          (prorate ≡ prorate)
          × (req.current.expired_at ≢ none)
          × (req.old_plan.period_days ≤ℤ pos 0))
  unfolding change_by
  prorate_bad_period req = elim (Option-cases req.current.expired_at) [
    | inl e ↦ rw e ((λ q. cc), (λ (_, h, _). absurd (h refl)))
    | inr (x, e) ↦ elim (Bool-cases (leb_ℤ req.old_plan.period_days (pos 0))) [
      | inl q ↦ rw (e, q) ((λ r. (refl, (λ k. cc), leb→le _ _ q)), (λ h. refl))
      | inr q ↦
          rw (e, q)
            (
              (λ r. absurd (
                  prorated-ne-refused
                    (record req { current = record req.current { expired_at = some x } }) x
                    bad_period r)),
              (λ (_, _, le). cc (q, le→leb _ _ le)),
            )
    ]
  ]

  by_bad_period :
      (p : ChangePolicy) (req : ChangeRequest Location)
      → (change_by utc civil date add_days p req ≡ refused bad_period)
        ↔ ((p ≡ prorate) × (req.current.expired_at ≢ none) × (req.old_plan.period_days ≤ℤ pos 0))
  unfolding change_by change_reset change_stack prorated
  by_bad_period reset req = ground arith
  by_bad_period prorate req = prorate_bad_period req
  by_bad_period stack req = ground arith
  by_bad_period deny req = ground arith
  by_bad_period (unknown_policy s) req = ground arith

  by_change_denied :
      (p : ChangePolicy) (req : ChangeRequest Location)
      → (change_by utc civil date add_days p req ≡ refused change_denied)
        ↔ ((p ≡ deny) × IsLive req.current.expired_at req.at)
  unfolding change_by change_reset change_stack prorated
  by_change_denied p req = ground arith

  by_prorate_permanent :
      (p : ChangePolicy) (req : ChangeRequest Location)
      → (change_by utc civil date add_days p req ≡ refused prorate_permanent)
        ↔ ((p ≡ prorate) × (req.current.expired_at ≡ none))
  unfolding change_by change_reset change_stack prorated
  by_prorate_permanent p req = ground arith

  by_unknown :
      (p : ChangePolicy) (req : ChangeRequest Location)
      → (change_by utc civil date add_days p req ≡ refused unknown_change)
        ↔ ((s : String) × (p ≡ unknown_policy s))
  unfolding change_by change_reset change_stack prorated
  by_unknown p req = ground arith

  apply_change-refused :
      (req : ChangeRequest Location) (e : ChangeError)
      → (apply_change utc civil date add_days req ≡ refused e) ↔ (
          ((e ≡ bad_period) × (req.new_plan.period_days ≤ℤ pos 0))
          ⊎ ((pos 0 <ℤ req.new_plan.period_days)
              × (change_by utc civil date add_days req.policy req ≡ refused e)))
  unfolding apply_change
  apply_change-refused req e = elim (Bool-cases (leb_ℤ req.new_plan.period_days (pos 0))) [
    | inl q ↦ rw q ((λ r. inl (cc, leb→le _ _ q)), (λ r. from_bad e req.new_plan.period_days _ q r))
    | inr q ↦ rw q ((λ r. inr (ground arith, r)), (λ r. ground arith))
  ]

  -- Which requests are refused, and with which error: a period that is not positive, the old one
  -- only if it is to be prorated; a deny policy on a live subscription; a proration without an
  -- expiry; a policy that is not known.
  pub apply_change_errors :
      (req : ChangeRequest Location)
      → ((apply_change utc civil date add_days req ≡ refused bad_period) ↔ (
          (req.new_plan.period_days ≤ℤ pos 0)
          ⊎ ((req.policy ≡ prorate)
              × (req.current.expired_at ≢ none)
              × (req.old_plan.period_days ≤ℤ pos 0))))
        × ((apply_change utc civil date add_days req ≡ refused change_denied) ↔ (
            (pos 0 <ℤ req.new_plan.period_days)
            × (req.policy ≡ deny)
            × IsLive req.current.expired_at req.at))
        × ((apply_change utc civil date add_days req ≡ refused prorate_permanent) ↔ (
            (pos 0 <ℤ req.new_plan.period_days)
            × (req.policy ≡ prorate)
            × (req.current.expired_at ≡ none)))
        × ((apply_change utc civil date add_days req ≡ refused unknown_change) ↔ (
            (pos 0 <ℤ req.new_plan.period_days) × ((s : String) × (req.policy ≡ unknown_policy s))))
  apply_change_errors req = (
    ground (arith, apply_change-refused req bad_period, by_bad_period req.policy req),
    ground (arith, apply_change-refused req change_denied, by_change_denied req.policy req),
    ground (arith, apply_change-refused req prorate_permanent, by_prorate_permanent req.policy req),
    ground (arith, apply_change-refused req unknown_change, by_unknown req.policy req),
  )
