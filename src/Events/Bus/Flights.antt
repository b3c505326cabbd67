-- ===== src/Events/Bus/Flights.antt =====
-- Calls of `Publish` of internal/events/bus.go that are under way at once, beside registrations.
-- `Publish` copies the subscribers under the lock and runs the handlers outside of it, so between
-- any two of its steps other goroutines, and the handlers themselves, may register and publish; so
-- they may while `err.Error()` runs. A handler may end in any way here; what it does to the world is
-- left open.
use lumi_panel.Base.{ℕ, ◌≡◌, Option, none, some, List, [], ◌∷◌, ◌++◌, ◌==◌, if◌then◌else◌}
use lumi_panel.Events.Bus.{
  EventType, Event, Outcome, ok, failed, panicked, DeliveryError, returned, contained, Errors,
  error_text, LogEntry, Subscription, Bus, subscribe,
}

module _ (World Payload Failure Panic : Type 0) where
  -- The variables of a call of `Publish`, and the handlers that it has run, with their ends.
  pub record Progress : Type 0 where
    pub errs : List (DeliveryError Failure Panic)
    pub log : List LogEntry
    pub made : List (Subscription World Payload Failure Panic × Outcome Failure Panic)

  -- Where a call stands: before its first step, at the head of the loop with the subscribers that
  -- are left of its copy, inside of a handler, at the text of the error that it has appended last,
  -- after its return, or after a panic of that text.
  pub data Flight : Type 0 where
    idle : Flight
    looping : Event Payload → List (Subscription World Payload Failure Panic) → Progress → Flight
    handling :
        Event Payload
        → Subscription World Payload Failure Panic
        → List (Subscription World Payload Failure Panic)
        → Progress
        → Flight
    telling :
        Event Payload
        → Subscription World Payload Failure Panic
        → DeliveryError Failure Panic
        → List (Subscription World Payload Failure Panic)
        → Progress
        → Flight
    landed : Event Payload → Progress → Flight
    crashed : Event Payload → Progress → Flight

  pub record System : Type 0 where
    pub bus : Bus World Payload Failure Panic
    pub flights : ℕ → Flight

module _ {World Payload Failure Panic : Type 0} where
  abbrev pub no_progress : Progress World Payload Failure Panic
  no_progress = record { errs = []; log = []; made = [] }

  -- What `deliver` returns when a handler ends.
  unfoldable pub delivery_error :
      Subscription World Payload Failure Panic
      → Outcome Failure Panic
      → Option (DeliveryError Failure Panic)
  delivery_error s ok = none
  delivery_error s (failed err) = some (returned err)
  delivery_error s (panicked r) = some (contained s.name r)

  -- The body of the loop of `Publish` from the return of `deliver` on: the error is appended.
  unfoldable pub note :
      Event Payload
      → Subscription World Payload Failure Panic
      → Outcome Failure Panic
      → List (Subscription World Payload Failure Panic)
      → Progress World Payload Failure Panic
      → Flight World Payload Failure Panic
  unfolding delivery_error
  note e s o rest p =
      let made = p.made ++ (s, o) ∷ [] in
      elim (delivery_error s o) [
        | none ↦ looping e rest (record p { made = made })
        | some x ↦ telling e s x rest (record p { errs = p.errs ++ x ∷ []; made = made })
      ]

  -- From `err.Error()` on: the log, unless it panics.
  unfoldable pub tell :
      Errors Failure Panic
      → Event Payload
      → Subscription World Payload Failure Panic
      → DeliveryError Failure Panic
      → List (Subscription World Payload Failure Panic)
      → Progress World Payload Failure Panic
      → Flight World Payload Failure Panic
  unfolding error_text
  tell errors e s x rest p = elim (error_text errors x) [
    | none ↦ crashed e p
    | some text ↦ looping e rest (record p {
      log = p.log ++ record { event = e.type; subscriber = s.name; error = text } ∷ [];
    })
  ]

  abbrev pub fly :
      ℕ
      → Flight World Payload Failure Panic
      → System World Payload Failure Panic
      → System World Payload Failure Panic
  fly i f s = record s { flights = λ j. if i == j then f else s.flights j }

  pub data Step (errors : Errors Failure Panic) (s : System World Payload Failure Panic)
      : System World Payload Failure Panic → Type 0 where
    registers :
        {b : Bus World Payload Failure Panic} (t : EventType)
        (sub : Subscription World Payload Failure Panic)
        → subscribe t sub s.bus ≡ some b
        → Step errors s (record s { bus = b })
    -- The copy, under the lock.
    begins :
        (i : ℕ) (e : Event Payload)
        → s.flights i ≡ idle
        → Step errors s (fly i (looping e (s.bus.subs e.type) no_progress) s)
    calls :
        {e : Event Payload} {sub : Subscription World Payload Failure Panic}
        {rest : List (Subscription World Payload Failure Panic)}
        {p : Progress World Payload Failure Panic} (i : ℕ)
        → s.flights i ≡ looping e (sub ∷ rest) p
        → Step errors s (fly i (handling e sub rest p) s)
    ends :
        {e : Event Payload} {sub : Subscription World Payload Failure Panic}
        {rest : List (Subscription World Payload Failure Panic)}
        {p : Progress World Payload Failure Panic} (i : ℕ) (o : Outcome Failure Panic)
        → s.flights i ≡ handling e sub rest p
        → Step errors s (fly i (note e sub o rest p) s)
    tells :
        {e : Event Payload} {sub : Subscription World Payload Failure Panic}
        {x : DeliveryError Failure Panic} {rest : List (Subscription World Payload Failure Panic)}
        {p : Progress World Payload Failure Panic} (i : ℕ)
        → s.flights i ≡ telling e sub x rest p
        → Step errors s (fly i (tell errors e sub x rest p) s)
    returns :
        {e : Event Payload} {p : Progress World Payload Failure Panic} (i : ℕ)
        → s.flights i ≡ looping e [] p
        → Step errors s (fly i (landed e p) s)

  -- The states that may follow once the call `i` has begun to publish the event on a bus.
  pub data After (errors : Errors Failure Panic) (i : ℕ) (e : Event Payload)
      (b : Bus World Payload Failure Panic) : System World Payload Failure Panic → Type 0 where
    began :
        (s : System World Payload Failure Panic)
        → s.bus ≡ b
        → s.flights i ≡ idle
        → After errors i e b (fly i (looping e (b.subs e.type) no_progress) s)
    next :
        {s t : System World Payload Failure Panic}
        → After errors i e b s
        → Step errors s t
        → After errors i e b t
