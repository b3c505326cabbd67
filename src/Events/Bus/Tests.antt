-- ===== src/Events/Bus/Tests.antt =====
-- Runs of internal/events/bus.go, and its theorems at a concrete bus whose world counts the calls.
use Prim.Native.String.{String}
use lumi_panel.Base.Text.{eq_text}
use lumi_panel.Base.{if◌then◌else◌, ℕ, suc, ◌≡◌, ◌↔◌, refl, none, some, [], ◌∷◌, map, pos, All}
use lumi_panel.Events.Bus.{
  Event, ok, failed, panicked, returned, contained, Errors, error_text, Subscription, Bus, new_bus,
  subscribe, subscribers, publish, required_subscribers, names_of, verify_wiring,
}
use lumi_panel.Events.Bus.Registry.{AreDistinct, Registers, start, next, Registers-AreDistinct}
use lumi_panel.Events.Bus.Delivery.{Delivers, publish_lem}
use lumi_panel.Events.Bus.Wiring.{HasAll, IsAbsent, verify_wiring_lem}

-- The payload is a number; errors and panics are texts.
abbrev audit : Subscription ℕ ℕ String String
audit = record { name = "audit.record"; fn = λ w e. (suc w, ok) }

abbrev notify : Subscription ℕ ℕ String String
notify = record { name = "notify.user"; fn = λ w e. (suc w, failed "no route") }

abbrev revoke : Subscription ℕ ℕ String String
revoke = record { name = "nodeplane.revoke"; fn = λ w e. (suc w, panicked "nil map") }

abbrev empty : Bus ℕ ℕ String String
empty = new_bus

abbrev wired : Bus ℕ ℕ String String
wired = record { subs = λ t. revoke ∷ notify ∷ audit ∷ [] }

abbrev banned : Event ℕ
banned = record {
  type = "user.banned";
  user_id = pos 1;
  target_id = pos 2;
  operator_id = pos 3;
  reason = "abuse";
  payload = 4;
}

-- The error "typed nil" is one whose `Error` method panics.
abbrev texts : Errors String String
texts = record {
  message = λ x. if eq_text x "typed nil" then none else some x;
  panic_text = λ name r. r;
}

fans_out :
    ((publish texts banned wired 0).world ≡ 3)
    × ((publish texts banned wired 0).errs
        ≡ some (contained "nodeplane.revoke" "nil map" ∷ returned "no route" ∷ []))
    × (subscribe "user.banned" audit wired ≡ none)
unfolding publish subscribe error_text eq_text
fans_out = (refl, refl, refl)

abbrev page : Subscription ℕ ℕ String String
page = record { name = "admin.alert"; fn = λ w e. (suc w, failed "typed nil") }

-- The text of the second failure panics: the audit record is not written.
cut_short : publish texts banned (record { subs = λ t. notify ∷ page ∷ audit ∷ [] }) 0 ≡ record {
  world = 2;
  errs = none;
  log = record { event = "user.banned"; subscriber = "notify.user"; error = "no route" } ∷ [];
}
unfolding publish error_text eq_text
cut_short = refl

publish_lem_example :
    Delivers texts banned (wired.subs "user.banned") 0 (publish texts banned wired 0)
publish_lem_example = publish_lem texts banned wired 0

abbrev one : Bus ℕ ℕ String String
one = elim (subscribe "user.banned" audit empty) [ none ↦ empty | some b ↦ b ]

registered_one : Registers one
unfolding subscribe
registered_one = next "user.banned" audit start refl

verify_wiring_lem_example :
    All (IsAbsent wired) (verify_wiring wired)
    × ((verify_wiring wired ≡ [])
        ↔ All
            (λ t. HasAll wired t (names_of t required_subscribers))
            (map (λ e. e.0) required_subscribers))
verify_wiring_lem_example = verify_wiring_lem wired

Registers-AreDistinct_example : AreDistinct (subscribers "user.banned" one)
Registers-AreDistinct_example = Registers-AreDistinct registered_one "user.banned"
