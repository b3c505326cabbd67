-- ===== src/Events/Bus/Accounts.antt =====
-- What a call of `Publish` of internal/events/bus.go has done at each point of its run.
use Prim.Native.String.{String}
use mathlib.Core.Option.{some-injective}
use mathlib.Core.List.{append_assoc, map-append}
use lumi_panel.Base.{◌≡◌, refl, ap, none, some, List, [], ◌∷◌, ◌++◌, map}
use lumi_panel.Events.Bus.{
  Event, Outcome, ok, failed, panicked, returned, contained, DeliveryError, Errors, error_text,
  Subscription,
}
use lumi_panel.Events.Bus.Delivery.{failures, Logs}
use lumi_panel.Events.Bus.Flights.{
  Progress, Flight, idle, looping, handling, telling, landed, crashed, delivery_error,
}

module _ {World Payload Failure Panic : Type 0} where
  -- The handlers that a call has run, in order, and how they ended.
  abbrev pub called :
      Progress World Payload Failure Panic → List (Subscription World Payload Failure Panic)
  called p = map (λ c. c.0) p.made

  abbrev pub ended : Progress World Payload Failure Panic → List (Outcome Failure Panic)
  ended p = map (λ c. c.1) p.made

  -- The failures of the handlers that a call has run.
  abbrev pub failed_so_far :
      Progress World Payload Failure Panic → List (String × DeliveryError Failure Panic)
  failed_so_far p = failures (called p) (ended p)

  module _ (errors : Errors Failure Panic) where
    -- The errors and the log hold exactly the failures of the handlers that have run.
    pub record Accounts (e : Event Payload) (p : Progress World Payload Failure Panic)
        : Type 0 where
      pub errs : p.errs ≡ map (λ f. f.1) (failed_so_far p)
      pub log : Logs errors e.type (failed_so_far p) p.log

    -- The last handler that has run failed with this error, which is not in the log yet.
    pub record Owes (e : Event Payload) (s : Subscription World Payload Failure Panic)
        (x : DeliveryError Failure Panic) (p : Progress World Payload Failure Panic) : Type 0 where
      pub earlier : List (Subscription World Payload Failure Panic × Outcome Failure Panic)
      pub outcome : Outcome Failure Panic
      pub fails : delivery_error s outcome ≡ some x
      pub last : p.made ≡ earlier ++ (s, outcome) ∷ []
      pub errs : p.errs ≡ map (λ f. f.1) (failed_so_far p)
      pub log :
          Logs errors e.type (failures (map (λ c. c.0) earlier) (map (λ c. c.1) earlier)) p.log

    -- Why and where a call has panicked: at the text of an error that it owed to its log.
    pub record Crashes (e : Event Payload) (subs : List (Subscription World Payload Failure Panic))
        (p : Progress World Payload Failure Panic) : Type 0 where
      pub rest : List (Subscription World Payload Failure Panic)
      pub split : called p ++ rest ≡ subs
      pub subscription : Subscription World Payload Failure Panic
      pub error : DeliveryError Failure Panic
      pub mute : error_text errors error ≡ none
      pub owes : Owes e subscription error p

    -- A call of `Publish` that began with these subscribers has run some of them and has the
    -- others before it, in their order; when it has returned it has run all.
    abbrev pub Covers :
        Event Payload
        → List (Subscription World Payload Failure Panic)
        → Flight World Payload Failure Panic
        → Type 0
    Covers e subs idle = ⊥
    Covers e subs (looping e' rest p) = (e' ≡ e) × (called p ++ rest ≡ subs) × Accounts e p
    Covers e subs (handling e' s rest p) = (e' ≡ e) × (called p ++ s ∷ rest ≡ subs) × Accounts e p
    Covers e subs (telling e' s x rest p) = (e' ≡ e) × (called p ++ rest ≡ subs) × Owes e s x p
    Covers e subs (landed e' p) = (e' ≡ e) × (called p ≡ subs) × Accounts e p
    Covers e subs (crashed e' p) = (e' ≡ e) × Crashes e subs p

  pub failures-append :
      (made : List (Subscription World Payload Failure Panic × Outcome Failure Panic))
      (s : Subscription World Payload Failure Panic) (o : Outcome Failure Panic)
      → failures (map (λ c. c.0) (made ++ (s, o) ∷ [])) (map (λ c. c.1) (made ++ (s, o) ∷ []))
        ≡ failures (map (λ c. c.0) made) (map (λ c. c.1) made) ++ failures (s ∷ []) (o ∷ [])
  unfolding failures
  failures-append [] s o = refl
  failures-append ((s', ok) ∷ made) s o = failures-append made s o
  failures-append ((s', failed x) ∷ made) s o =
      ap (λ (l : List (String × DeliveryError Failure Panic)). (s'.name, returned x) ∷ l)
        (failures-append made s o)
  failures-append ((s', panicked r) ∷ made) s o =
      ap (λ (l : List (String × DeliveryError Failure Panic)). (s'.name, contained s'.name r) ∷ l)
        (failures-append made s o)

  pub failures-one :
      (s : Subscription World Payload Failure Panic) (o : Outcome Failure Panic)
      (x : DeliveryError Failure Panic)
      → delivery_error s o ≡ some x
      → failures (s ∷ []) (o ∷ []) ≡ (s.name, x) ∷ []
  unfolding failures delivery_error
  failures-one s ok x h = cc
  failures-one s (failed y) x h = rw (some-injective _ _ h) refl
  failures-one s (panicked r) x h = rw (some-injective _ _ h) refl

  pub failures-none :
      (s : Subscription World Payload Failure Panic) (o : Outcome Failure Panic)
      → delivery_error s o ≡ none
      → failures (s ∷ []) (o ∷ []) ≡ []
  unfolding failures delivery_error
  failures-none s ok h = refl
  failures-none s (failed y) h = cc
  failures-none s (panicked r) h = cc

  -- One more handler behind those that a call has run, and one more subscriber of those ahead.
  pub called-made :
      (made : List (Subscription World Payload Failure Panic × Outcome Failure Panic))
      (s : Subscription World Payload Failure Panic) (o : Outcome Failure Panic)
      (rest subs : List (Subscription World Payload Failure Panic))
      → map (λ c. c.0) made ++ s ∷ rest ≡ subs
      → map (λ c. c.0) (made ++ (s, o) ∷ []) ++ rest ≡ subs
  called-made made s o rest subs h = rw (map-append (λ c. c.0) made ((s, o) ∷ []), append_assoc) h
