-- ===== src/Events/Bus/FlightTests.antt =====
-- Calls of `Publish` of internal/events/bus.go beside registrations, on a concrete bus.
use Prim.Native.String.{String}
use lumi_panel.Base.Text.{eq_text}
use lumi_panel.Base.{if◌then◌else◌, ℕ, ◌≡◌, refl, Option, none, some, List, [], ◌∷◌, pos, All}
use lumi_panel.Events.Bus.{
  EventType, Event, ok, failed, panicked, contained, returned, Errors, error_text, Subscription,
  Bus, new_bus, subscribe, required_subscribers, names_of, verify_wiring,
}
use lumi_panel.Events.Bus.Registry.{Names, AreDistinct, Registers, start}
use lumi_panel.Events.Bus.Registry
use lumi_panel.Events.Bus.Flights.{
  Progress, idle, landed, crashed, System, note, tell, registers, calls, ends, tells, returns,
  After, began, next,
}
use lumi_panel.Events.Bus.Accounts.{Covers}
use lumi_panel.Events.Bus.Interleaving.{After-Covers}
use lumi_panel.Events.Bus.Startup.{now, wired_publish-reaches}

-- Events carry a number; errors and panics are texts. What a handler does is left open.
abbrev named : String → Subscription ℕ ℕ String String
named n = record { name = n; fn = λ w e. (w, ok) }

-- The error "typed nil" is one whose `Error` method panics.
abbrev texts : Errors String String
texts = record {
  message = λ x. if eq_text x "typed nil" then none else some x;
  panic_text = λ name r. r;
}

record Built : Type 0 where
  bus : Bus ℕ ℕ String String
  built : Registers bus

abbrev registered_one :
    (t : EventType) (n : String) (b : Built) (o : Option (Bus ℕ ℕ String String))
    → subscribe t (named n) b.bus ≡ o
    → Built
registered_one t n b none e = b
registered_one t n b (some c) e = record { bus = c; built = Registry.next t (named n) b.built e }

abbrev registered_by : EventType → Built → List String → Built
registered_by t b [] = b
registered_by t b (n ∷ names) =
    registered_by t (registered_one t n b (subscribe t (named n) b.bus) refl) names

abbrev registered_all : Built → List (EventType × List String) → Built
registered_all b [] = b
registered_all b ((t, names) ∷ m) = registered_all (registered_by t b names) m

-- All of the matrix is registered.
abbrev wired : Built
unfolding subscribe required_subscribers
wired = registered_all (record { bus = new_bus; built = start }) required_subscribers

wired_passes : verify_wiring wired.bus ≡ []
unfolding wired verify_wiring
wired_passes = refl

abbrev unhealthy : Event ℕ
unhealthy = record {
  type = "node.unhealthy";
  user_id = pos 0;
  target_id = pos 2;
  operator_id = pos 0;
  reason = "timeout";
  payload = 4;
}

abbrev before : System ℕ ℕ String String
before = record { bus = wired.bus; flights = λ i. idle }

record Flown : Type 0 where
  last : System ℕ ℕ String String
  after : After texts 0 unhealthy wired.bus last

-- A handler is registered while the event is published: it is not called, and one handler panics.
abbrev flown : Flown
unfolding wired subscribe required_subscribers note tell error_text
flown = record {
  last = _;
  after =
      let registered =
        next (began before refl refl) (registers "node.unhealthy" (named "late") refl) in
      let first = next (next registered (calls 0 refl)) (ends 0 ok refl) in
      let second = next (next first (calls 0 refl)) (ends 0 (panicked "nil map") refl) in
      next (next second (tells 0 refl)) (returns 0 refl);
}

-- The first handler returns an error whose text panics: the second one does not run.
abbrev cut_short : Flown
unfolding wired subscribe required_subscribers note tell error_text eq_text
cut_short = record {
  last = _;
  after =
      let first = next (began before refl refl) (calls 0 refl) in
      next (next first (ends 0 (failed "typed nil") refl)) (tells 0 refl);
}

crashed_at_last :
    cut_short.last.flights 0
    ≡ crashed unhealthy (record {
      errs = returned "typed nil" ∷ [];
      log = [];
      made = (named "subplane.invalidate", failed "typed nil") ∷ [];
    })
unfolding cut_short
crashed_at_last = refl

abbrev progress : Progress ℕ ℕ String String
progress = record {
  errs = contained "admin.alert" "nil map" ∷ [];
  log = record { event = "node.unhealthy"; subscriber = "admin.alert"; error = "nil map" } ∷ [];
  made = (named "subplane.invalidate", ok) ∷ (named "admin.alert", panicked "nil map") ∷ [];
}

landed_at_last : flown.last.flights 0 ≡ landed unhealthy progress
unfolding flown
landed_at_last = refl

After-Covers_example :
    Covers texts unhealthy (wired.bus.subs "node.unhealthy") (flown.last.flights 0)
After-Covers_example = After-Covers texts flown.after

wired_publish-reaches_example :
    All
      (λ n. Names n ("subplane.invalidate" ∷ "admin.alert" ∷ []))
      (names_of "node.unhealthy" required_subscribers)
    × AreDistinct ("subplane.invalidate" ∷ "admin.alert" ∷ [])
wired_publish-reaches_example =
    wired_publish-reaches wired.built wired_passes now flown.after landed_at_last
