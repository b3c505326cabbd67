-- ===== src/Events/Bus.antt =====
-- internal/events/bus.go. A handler is code that registers from outside: it takes the state of
-- the world that the handlers share to a new one, and returns nil, returns an error or panics. The
-- payload of an event, the error and the value of a panic, with its stack, are types of its own.
-- An error's `Error` method is code from outside as well, which `Publish` calls to log the error.
-- Registration holds the lock throughout; `Publish` runs on a copy of the registry, so it is a
-- function of the bus as it was when called.
pub mod Registry
pub mod Delivery
pub mod Wiring
pub mod Flights
pub mod Accounts
pub mod Interleaving
pub mod Startup
mod FlightTests
mod Tests
use Prim.Native.String.{String}
use mathlib.Core.Option
use lumi_panel.Base.{
  Bool, true, false, not, Option, none, some, List, [], ◌∷◌, ◌++◌, map, ℤ, if◌then◌else◌,
}
use lumi_panel.Base.Text.{eq_text, less_text}
use lumi_panel.Base.Sort.{sort_stable}

-- `type Type string`.
abbrev pub EventType : Type 0
EventType = String

pub record Event (Payload : Type 0) : Type 0 where
  pub type : EventType
  pub user_id : ℤ
  pub target_id : ℤ
  pub operator_id : ℤ
  pub reason : String
  pub payload : Payload

-- How a call of a handler ends.
pub data Outcome (Failure Panic : Type 0) : Type 0 where
  ok : Outcome Failure Panic
  failed : Failure → Outcome Failure Panic
  panicked : Panic → Outcome Failure Panic

-- The errors that `deliver` returns: a handler's own, or a panic turned into one under its name.
pub data DeliveryError (Failure Panic : Type 0) : Type 0 where
  returned : Failure → DeliveryError Failure Panic
  contained : String → Panic → DeliveryError Failure Panic

-- The texts of errors. `message x` is `x.Error()` of a handler's error, `none` if the method panics;
-- `panic_text` is what `fmt.Errorf` makes of a name and a panic.
pub record Errors (Failure Panic : Type 0) : Type 0 where
  pub message : Failure → Option String
  pub panic_text : String → Panic → String

-- `err.Error()` of an error that `deliver` returned.
unfoldable pub error_text :
    {Failure Panic : Type 0} → Errors Failure Panic → DeliveryError Failure Panic → Option String
error_text errors (returned x) = errors.message x
error_text errors (contained name r) = some (errors.panic_text name r)

-- What `Publish` logs for a failure.
pub record LogEntry : Type 0 where
  pub event : EventType
  pub subscriber : String
  pub error : String

module _ (World Payload Failure Panic : Type 0) where
  abbrev pub Handler : Type 0
  Handler = World → Event Payload → World × Outcome Failure Panic

  pub record Subscription : Type 0 where
    pub name : String
    pub fn : World → Event Payload → World × Outcome Failure Panic

  -- The map `subs`: an absent key reads as the nil slice.
  pub record Bus : Type 0 where
    pub subs : EventType → List Subscription

  -- How a call of `Publish` ends: `errs` is what it returns, or `none` if it panics.
  pub record Published : Type 0 where
    pub world : World
    pub errs : Option (List (DeliveryError Failure Panic))
    pub log : List LogEntry

module _ {World Payload Failure Panic : Type 0} where
  abbrev pub new_bus : Bus World Payload Failure Panic
  new_bus = record { subs = λ t. [] }

  -- The loop of `Subscribe`: a subscription with the name is there.
  unfoldable pub has_name : String → List (Subscription World Payload Failure Panic) → Bool
  unfolding eq_text
  has_name name [] = false
  has_name name (s ∷ subs) = if eq_text s.name name then true else has_name name subs

  -- `none` is the panic of a duplicate name.
  unfoldable pub subscribe :
      EventType
      → Subscription World Payload Failure Panic
      → Bus World Payload Failure Panic
      → Option (Bus World Payload Failure Panic)
  unfolding has_name eq_text
  subscribe t s b =
      if has_name s.name (b.subs t)
      then none
      else some (record { subs = λ u. if eq_text t u then b.subs u ++ s ∷ [] else b.subs u })

  unfoldable pub subscribers : EventType → Bus World Payload Failure Panic → List String
  subscribers t b = map (λ s. s.name) (b.subs t)

  unfoldable pub deliver :
      Subscription World Payload Failure Panic
      → Event Payload
      → World
      → World × Option (DeliveryError Failure Panic)
  deliver s e w =
      let (w', outcome) = s.fn w e in
      (
        w',
        elim outcome [
          | ok ↦ none
          | failed err ↦ some (returned err)
          | panicked r ↦ some (contained s.name r)
        ],
      )

  module _ (errors : Errors Failure Panic) where
    -- The loop of `Publish`, from the first subscriber on. A panic of `err.Error()` leaves it.
    unfoldable pub deliver_all :
        List (Subscription World Payload Failure Panic)
        → Event Payload
        → World
        → Published World Payload Failure Panic
    unfolding deliver error_text
    deliver_all [] e w = record { world = w; errs = some []; log = [] }
    deliver_all (s ∷ subs) e w =
        let (w', err) = deliver s e w in
        let rest = deliver_all subs e w' in
        elim err [
          | none ↦ rest
          | some x ↦ elim (error_text errors x) [
            | none ↦ record { world = w'; errs = none; log = [] }
            | some text ↦ record {
              world = rest.world;
              errs = Option.map (λ xs. x ∷ xs) rest.errs;
              log = record { event = e.type; subscriber = s.name; error = text } ∷ rest.log;
            }
          ]
        ]

    unfoldable pub publish :
        Event Payload
        → Bus World Payload Failure Panic
        → World
        → Published World Payload Failure Panic
    unfolding deliver_all
    publish e b w = deliver_all (b.subs e.type) e w

-- The literal `RequiredSubscribers`, a map, in the order of the source.
unfoldable pub required_subscribers : List (EventType × List String)
required_subscribers =
    (
      "user.banned",
      "nodeplane.revoke" ∷ "auth.revoke_sessions" ∷ "subplane.invalidate" ∷ "notify.user"
          ∷ "audit.record" ∷ [],
    )
    ∷ ("user.unbanned", "nodeplane.grant" ∷ "notify.user" ∷ "audit.record" ∷ [])
    ∷ (
      "subscription.changed",
      "nodeplane.sync_groups" ∷ "metering.update_ladder" ∷ "subplane.invalidate" ∷ "notify.user"
          ∷ "audit.record" ∷ [],
    )
    ∷ (
      "traffic.reset",
      "nodeplane.grant" ∷ "metering.reset_ladder" ∷ "notify.user" ∷ "audit.record" ∷ [],
    )
    ∷ ("quota.adjusted", "metering.update_ladder" ∷ "audit.record" ∷ [])
    ∷ ("node.state_changed", "nodeplane.push_config" ∷ "subplane.invalidate" ∷ "audit.record" ∷ [])
    ∷ ("node.rate_changed", "metering.rate_snapshot" ∷ "subplane.invalidate" ∷ "audit.record" ∷ [])
    ∷ ("node.unhealthy", "subplane.invalidate" ∷ "admin.alert" ∷ [])
    ∷ ("plan.visibility_changed", "audit.record" ∷ [])
    ∷ (
      "order.provisioned",
      "nodeplane.grant" ∷ "metering.update_ladder" ∷ "notify.user" ∷ "audit.record" ∷ [],
    )
    ∷ (
      "order.refunded",
      "nodeplane.revoke" ∷ "metering.update_ladder" ∷ "notify.user" ∷ "audit.record" ∷ [],
    )
    ∷ ("subscription.token_reset", "subplane.invalidate" ∷ "notify.user" ∷ "audit.record" ∷ [])
    ∷ ("notice.published", "audit.record" ∷ [])
    ∷ []

-- `m[t]` of a map to slices.
unfoldable pub names_of : EventType → List (EventType × List String) → List String
unfolding eq_text
names_of t [] = []
names_of t ((u, names) ∷ m) = if eq_text u t then names else names_of t m

unfoldable pub sorted_types : List (EventType × List String) → List EventType
unfolding sort_stable less_text
sorted_types m = sort_stable less_text (map (λ e. e.0) m)

-- The errors of `VerifyWiring`.
pub record Missing : Type 0 where
  pub event : EventType
  pub name : String

unfoldable pub missing_names : EventType → (String → Bool) → List String → List Missing
missing_names t m [] = []
missing_names t m (name ∷ names) =
    let rest = missing_names t m names in
    if not (m name) then record { event = t; name = name } ∷ rest else rest

module _ {World Payload Failure Panic : Type 0} where
  -- The map `registered`, as a function.
  unfoldable pub registered :
      List (Subscription World Payload Failure Panic) → (String → Bool) → String → Bool
  unfolding eq_text
  registered [] m = m
  registered (s ∷ subs) m = registered subs (λ n. if eq_text s.name n then true else m n)

  unfoldable pub missing_types : Bus World Payload Failure Panic → List EventType → List Missing
  unfolding registered missing_names names_of required_subscribers
  missing_types b [] = []
  missing_types b (t ∷ ts) =
      missing_names t (registered (b.subs t) (λ n. false)) (names_of t required_subscribers)
      ++ missing_types b ts

  unfoldable pub verify_wiring : Bus World Payload Failure Panic → List Missing
  unfolding sorted_types required_subscribers missing_types
  verify_wiring b = missing_types b (sorted_types required_subscribers)
