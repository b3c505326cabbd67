-- ===== src/Domain/Order/Progress.antt =====
-- No order of internal/domain/order.go gets stuck.
use mathlib.Core.Bool.{false≢true}
use lumi_panel.Base.{◌≡◌, refl, true, List, [], ◌∷◌}
use lumi_panel.Domain.Order.{
  OrderStatus, pending, paid, completed, provisioning_failed, cancelled, refunded, unknown,
  transition, is_known, is_terminal, is_paid,
}
use lumi_panel.Domain.Order.Lifecycle.{
  Edge, pays, cancels, provisions, fails, retries, gives_up, refunds, transition_lem, Follows,
}

-- The status that a sequence of changes from a status on ends in.
abbrev pub last_of : OrderStatus → List OrderStatus → OrderStatus
last_of s [] = s
last_of s (t ∷ ts) = last_of t ts

Edge-is_known : {s t : OrderStatus} → Edge s t → is_known t ≡ true
unfolding is_known
Edge-is_known pays = refl
Edge-is_known cancels = refl
Edge-is_known provisions = refl
Edge-is_known fails = refl
Edge-is_known retries = refl
Edge-is_known gives_up = refl
Edge-is_known refunds = refl

last_of-is_known :
    (s : OrderStatus) (ts : List OrderStatus)
    → is_known s ≡ true
    → Follows s ts
    → is_known (last_of s ts) ≡ true
last_of-is_known s [] k h = k
last_of-is_known s (t ∷ ts) k (e, h) =
    last_of-is_known t ts (Edge-is_known ((transition_lem s t).0.0 e)) h

-- Changes that are let through and lead to a status without a way out.
pub record Settles (s : OrderStatus) : Type 0 where
  pub changes : List OrderStatus
  pub let_through : Follows s changes
  pub ends : is_terminal (last_of s changes) ≡ true
  pub pays_back : is_paid s ≡ true → last_of s changes ≡ refunded

settle : (s : OrderStatus) → is_known s ≡ true → Settles s
unfolding is_known is_terminal is_paid transition
settle pending k = record {
  changes = cancelled ∷ [];
  let_through = (refl, tt);
  ends = refl;
  pays_back = λ e. absurd (false≢true e);
}
settle paid k = record {
  changes = completed ∷ (refunded ∷ []);
  let_through = (refl, (refl, tt));
  ends = refl;
  pays_back = λ e. refl;
}
settle completed k = record {
  changes = refunded ∷ [];
  let_through = (refl, tt);
  ends = refl;
  pays_back = λ e. refl;
}
settle provisioning_failed k = record {
  changes = refunded ∷ [];
  let_through = (refl, tt);
  ends = refl;
  pays_back = λ e. refl;
}
settle cancelled k = record {
  changes = [];
  let_through = tt;
  ends = refl;
  pays_back = λ e. absurd (false≢true e);
}
settle refunded k = record { changes = []; let_through = tt; ends = refl; pays_back = λ e. refl }
settle (unknown x) k = absurd (false≢true k)

-- From a known status, whatever changes were let through, further ones are that lead to a terminal
-- status, and to `refunded` if the money had arrived.
pub follows-Settles :
    (s : OrderStatus) (ts : List OrderStatus)
    → is_known s ≡ true
    → Follows s ts
    → Settles (last_of s ts)
follows-Settles s ts k h = settle (last_of s ts) (last_of-is_known s ts k h)
