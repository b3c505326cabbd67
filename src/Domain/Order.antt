-- ===== src/Domain/Order.antt =====
-- internal/domain/order.go: the order lifecycle. A status is a string; `unknown` is any string that
-- is not one of the constants.
pub mod Lifecycle
mod Progress
mod Tests
use Prim.Native.String.{String}
use lumi_panel.Base.{Bool, true, false, not, ◌&&◌, Option, none, some, List, [], ◌∷◌, if◌then◌else◌}

pub data OrderStatus : Type 0 where
  pending : OrderStatus
  paid : OrderStatus
  completed : OrderStatus
  provisioning_failed : OrderStatus
  cancelled : OrderStatus
  refunded : OrderStatus
  unknown : String → OrderStatus

-- The map `orderTransitions`; a key that is absent gives `none`.
unfoldable pub order_transitions : OrderStatus → Option (List OrderStatus)
order_transitions pending = some (paid ∷ cancelled ∷ [])
order_transitions paid = some (completed ∷ provisioning_failed ∷ [])
order_transitions provisioning_failed = some (completed ∷ refunded ∷ [])
order_transitions completed = some (refunded ∷ [])
order_transitions cancelled = some []
order_transitions refunded = some []
order_transitions (unknown s) = none

-- `orderTransitions[s]`, the nil slice for an absent key.
unfoldable pub edges_of : OrderStatus → List OrderStatus
unfolding order_transitions
edges_of s = elim (order_transitions s) [ none ↦ [] | some edges ↦ edges ]

-- `==` of two statuses, where one is a constant: no unknown status equals a constant.
unfoldable pub is_status : OrderStatus → OrderStatus → Bool
is_status pending pending = true
is_status paid paid = true
is_status completed completed = true
is_status provisioning_failed provisioning_failed = true
is_status cancelled cancelled = true
is_status refunded refunded = true
is_status _ _ = false

unfoldable pub any_allowed : List OrderStatus → OrderStatus → Bool
unfolding is_status
any_allowed [] to = false
any_allowed (allowed ∷ edges) to = if is_status allowed to then true else any_allowed edges to

unfoldable pub can_transition : OrderStatus → OrderStatus → Bool
unfolding edges_of any_allowed
can_transition from to = any_allowed (edges_of from) to

pub record IllegalTransition : Type 0 where
  pub from : OrderStatus
  pub to : OrderStatus

unfoldable pub transition : OrderStatus → OrderStatus → Option IllegalTransition
unfolding can_transition
transition from to =
    if not (can_transition from to) then some (record { from = from; to = to }) else none

unfoldable pub is_known : OrderStatus → Bool
unfolding order_transitions
is_known s = elim (order_transitions s) [ none ↦ false | some _ ↦ true ]

abbrev pub is_empty : List OrderStatus → Bool
is_empty [] = true
is_empty (_ ∷ _) = false

unfoldable pub is_terminal : OrderStatus → Bool
unfolding order_transitions
is_terminal s = elim (order_transitions s) [ none ↦ false | some edges ↦ is_empty edges ]

unfoldable pub is_paid : OrderStatus → Bool
is_paid paid = true
is_paid completed = true
is_paid provisioning_failed = true
is_paid refunded = true
is_paid _ = false
