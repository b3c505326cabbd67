-- ===== src/Domain/Order/Tests.antt =====
-- Runs of internal/domain/order.go, and its theorems at a concrete order.
use lumi_panel.Base.{◌≤◌, ◌≡◌, ◌↔◌, refl, true, false, none, some, List, [], ◌∷◌, length, All}
use lumi_panel.Domain.Order.{
  OrderStatus, pending, paid, completed, provisioning_failed, cancelled, refunded, unknown,
  can_transition, transition, is_known, is_terminal, is_paid,
}
use lumi_panel.Domain.Order.Lifecycle.{Edge, payments, Follows, transition_lem, follows_lem}
use lumi_panel.Domain.Order.Progress.{Settles, follows-Settles}

runs :
    (transition paid paid ≡ some (record { from = paid; to = paid }))
    × (transition cancelled paid ≡ some (record { from = cancelled; to = paid }))
    × (is_terminal (unknown "lost") ≡ false)
    × (can_transition pending (unknown "lost") ≡ false)
unfolding transition is_terminal can_transition
runs = (refl, refl, refl, refl)

transition_lem_example :
    ((transition cancelled paid ≡ none) ↔ Edge cancelled paid)
    × ((transition cancelled paid ≡ some (record { from = cancelled; to = paid }))
        ↔ ¬ Edge cancelled paid)
transition_lem_example = transition_lem cancelled paid

abbrev retried : List OrderStatus
retried = paid ∷ provisioning_failed ∷ completed ∷ refunded ∷ []

retried-Follows : Follows pending retried
unfolding transition
retried-Follows = (refl, (refl, (refl, (refl, tt))))

follows_lem_example :
    (length retried ≤ 4)
    × (payments retried ≤ 1)
    × (is_paid pending ≡ true → (payments retried ≡ 0) × All (λ t. is_paid t ≡ true) retried)
follows_lem_example = follows_lem pending retried retried-Follows

follows-Settles_example : Settles completed
unfolding is_known
follows-Settles_example =
    follows-Settles pending (paid ∷ provisioning_failed ∷ completed ∷ []) refl
      (unfold transition in (refl, (refl, (refl, tt))))
