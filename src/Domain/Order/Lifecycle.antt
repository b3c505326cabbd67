-- ===== src/Domain/Order/Lifecycle.antt =====
-- The order lifecycle of internal/domain/order.go as a step relation.
use mathlib.Core.Bool.{false≢true}
use lumi_panel.Base.{
  ℕ, suc, ◌≤◌, ◌<◌, ◌≡◌, ◌≢◌, ◌↔◌, refl, arith, true, none, some, List, [], ◌∷◌, length, All,
}
use lumi_panel.Domain.Order.{
  OrderStatus, pending, paid, completed, provisioning_failed, cancelled, refunded, unknown,
  can_transition, transition, is_known, is_terminal, is_paid,
}

-- The edges of the lifecycle, as its design draws them.
pub data Edge : OrderStatus → OrderStatus → Type 0 where
  pays : Edge pending paid
  cancels : Edge pending cancelled
  provisions : Edge paid completed
  fails : Edge paid provisioning_failed
  retries : Edge provisioning_failed completed
  gives_up : Edge provisioning_failed refunded
  refunds : Edge completed refunded

can_transition-Edge : (from to : OrderStatus) → Edge from to → can_transition from to ≡ true
unfolding can_transition
can_transition-Edge _ _ pays = refl
can_transition-Edge _ _ cancels = refl
can_transition-Edge _ _ provisions = refl
can_transition-Edge _ _ fails = refl
can_transition-Edge _ _ retries = refl
can_transition-Edge _ _ gives_up = refl
can_transition-Edge _ _ refunds = refl

Edge-of_can_transition : (from to : OrderStatus) → can_transition from to ≡ true → Edge from to
unfolding can_transition
Edge-of_can_transition pending paid e = pays
Edge-of_can_transition pending cancelled e = cancels
Edge-of_can_transition paid completed e = provisions
Edge-of_can_transition paid provisioning_failed e = fails
Edge-of_can_transition provisioning_failed completed e = retries
Edge-of_can_transition provisioning_failed refunded e = gives_up
Edge-of_can_transition completed refunded e = refunds
Edge-of_can_transition _ _ e = absurd (false≢true e)

-- `Transition` lets through exactly the edges of the lifecycle. Everything else, unknown statuses
-- included, it refuses with an error that names both ends.
pub transition_lem :
    (from to : OrderStatus)
    → ((transition from to ≡ none) ↔ Edge from to)
      × ((transition from to ≡ some (record { from = from; to = to })) ↔ ¬ Edge from to)
unfolding transition
transition_lem from to = ground (arith, can_transition-Edge from to, Edge-of_can_transition from to)

-- A status is terminal exactly when the lifecycle knows it and no transition leaves it; one that
-- is not known is never terminal.
pub is_terminal_iff :
    (s : OrderStatus)
    → (is_terminal s ≡ true) ↔ ((is_known s ≡ true) × ((t : OrderStatus) → transition s t ≢ none))
unfolding is_terminal is_known transition can_transition
is_terminal_iff pending = ((λ e. absurd (false≢true e)), (λ (_, h). absurd (h paid refl)))
is_terminal_iff paid = ((λ e. absurd (false≢true e)), (λ (_, h). absurd (h completed refl)))
is_terminal_iff completed = ((λ e. absurd (false≢true e)), (λ (_, h). absurd (h refunded refl)))
is_terminal_iff provisioning_failed =
    ((λ e. absurd (false≢true e)), (λ (_, h). absurd (h completed refl)))
is_terminal_iff cancelled = ((λ e. (refl, (λ t q. cc))), (λ h. refl))
is_terminal_iff refunded = ((λ e. (refl, (λ t q. cc))), (λ h. refl))
is_terminal_iff (unknown x) = ((λ e. absurd (false≢true e)), (λ (e, _). absurd (false≢true e)))

-- A sequence of status changes that `Transition` lets through, from a status on.
abbrev pub Follows : OrderStatus → List OrderStatus → Type 0
Follows s [] = Unit
Follows s (t ∷ ts) = (transition s t ≡ none) × Follows t ts

-- How many changes are left at most.
abbrev steps_left : OrderStatus → ℕ
steps_left pending = 4
steps_left paid = 3
steps_left provisioning_failed = 2
steps_left completed = 1
steps_left _ = 0

-- How often a sequence of statuses says that the money arrived.
unfoldable pub payments : List OrderStatus → ℕ
payments [] = 0
payments (paid ∷ ts) = suc (payments ts)
payments (_ ∷ ts) = payments ts

Edge-steps_left : {s t : OrderStatus} → Edge s t → steps_left t < steps_left s
Edge-steps_left pays = omega arith
Edge-steps_left cancels = omega arith
Edge-steps_left provisions = omega arith
Edge-steps_left fails = omega arith
Edge-steps_left retries = omega arith
Edge-steps_left gives_up = omega arith
Edge-steps_left refunds = omega arith

Edge-is_paid : {s t : OrderStatus} → Edge s t → is_paid s ≡ true → is_paid t ≡ true
unfolding is_paid
Edge-is_paid pays h = refl
Edge-is_paid cancels h = cc
Edge-is_paid provisions h = refl
Edge-is_paid fails h = refl
Edge-is_paid retries h = refl
Edge-is_paid gives_up h = refl
Edge-is_paid refunds h = refl

Edge-of : (s t : OrderStatus) → transition s t ≡ none → Edge s t
Edge-of s t e = (transition_lem s t).0.0 e

Follows-length : (s : OrderStatus) (ts : List OrderStatus) → Follows s ts → length ts ≤ steps_left s
Follows-length s [] h = omega arith
Follows-length s (t ∷ ts) (e, h) =
    omega (arith, Follows-length t ts h, Edge-steps_left (Edge-of s t e))

Follows-is_paid :
    (s : OrderStatus) (ts : List OrderStatus)
    → is_paid s ≡ true
    → Follows s ts
    → All (λ t. is_paid t ≡ true) ts
Follows-is_paid s [] p h = tt
Follows-is_paid s (t ∷ ts) p (e, h) =
    let q = Edge-is_paid (Edge-of s t e) p in (q, Follows-is_paid t ts q h)

-- The only change to `paid` starts from `pending`.
payments_step :
    (s t : OrderStatus) (ts : List OrderStatus)
    → Edge s t
    → (payments ts ≤ 1) × (is_paid t ≡ true → payments ts ≡ 0)
    → (payments (t ∷ ts) ≤ 1) × (is_paid s ≡ true → payments (t ∷ ts) ≡ 0)
unfolding payments is_paid
payments_step _ _ ts pays (h, k) = (omega (arith, k refl), λ e. absurd (false≢true e))
payments_step _ _ ts cancels h = (h.0, λ e. absurd (false≢true e))
payments_step _ _ ts provisions (h, k) = (h, λ e. k refl)
payments_step _ _ ts fails (h, k) = (h, λ e. k refl)
payments_step _ _ ts retries (h, k) = (h, λ e. k refl)
payments_step _ _ ts gives_up (h, k) = (h, λ e. k refl)
payments_step _ _ ts refunds (h, k) = (h, λ e. k refl)

steps_left-le : (s : OrderStatus) → steps_left s ≤ 4
steps_left-le s = ground arith

Follows-payments :
    (s : OrderStatus) (ts : List OrderStatus)
    → Follows s ts
    → (payments ts ≤ 1) × (is_paid s ≡ true → payments ts ≡ 0)
unfolding payments
Follows-payments s [] h = (omega arith, λ p. refl)
Follows-payments s (t ∷ ts) (e, h) = payments_step s t ts (Edge-of s t e) (Follows-payments t ts h)

-- Whatever the changes requested after a start, those let through end after four at most, say at
-- most once that the money arrived, and once it has arrived never leave the paid statuses or say
-- so again.
pub follows_lem :
    (s : OrderStatus) (ts : List OrderStatus)
    → Follows s ts
    → (length ts ≤ 4)
      × (payments ts ≤ 1)
      × (is_paid s ≡ true → (payments ts ≡ 0) × All (λ t. is_paid t ≡ true) ts)
follows_lem s ts h =
    let (once, never) = Follows-payments s ts h in
    (
      omega (arith, Follows-length s ts h, steps_left-le s),
      once,
      λ p. (never p, Follows-is_paid s ts p h),
    )
