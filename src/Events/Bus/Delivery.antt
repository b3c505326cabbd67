-- ===== src/Events/Bus/Delivery.antt =====
-- Delivery by the bus of internal/events/bus.go.
use Prim.Native.String.{String}
use mathlib.Core.Option
use lumi_panel.Base.{
  ◌≡◌, ◌⊎◌, inl, inr, refl, ap, none, some, Option-cases, List, [], ◌∷◌, ◌++◌, map,
}
use lumi_panel.Events.Bus.{
  EventType, Event, Outcome, ok, failed, panicked, DeliveryError, returned, contained, Errors,
  error_text, LogEntry, Subscription, Bus, Published, deliver, deliver_all, publish,
}

module _ {Failure Panic : Type 0} where
  Outcome-cases :
      (o : Outcome Failure Panic)
      → (o ≡ ok) ⊎ (((x : Failure) × (o ≡ failed x)) ⊎ ((r : Panic) × (o ≡ panicked r)))
  Outcome-cases ok = inl refl
  Outcome-cases (failed x) = inr (inl (x, refl))
  Outcome-cases (panicked r) = inr (inr (r, refl))

module _ {Failure Panic : Type 0} (errors : Errors Failure Panic) where
  -- The log has one entry for each of the failures, in order, with the text of its error.
  pub data Logs (t : EventType)
      : List (String × DeliveryError Failure Panic) → List LogEntry → Type 0 where
    unlogged : Logs t [] []
    logs :
        {name text : String} {x : DeliveryError Failure Panic}
        {fs : List (String × DeliveryError Failure Panic)} {log : List LogEntry}
        → error_text errors x ≡ some text
        → Logs t fs log
        → Logs t ((name, x) ∷ fs) (record { event = t; subscriber = name; error = text } ∷ log)

  pub Logs-append :
      {t : EventType} {fs : List (String × DeliveryError Failure Panic)} {log : List LogEntry}
      (name text : String) (x : DeliveryError Failure Panic)
      → error_text errors x ≡ some text
      → Logs t fs log
      → Logs t
          (fs ++ (name, x) ∷ [])
          (log ++ record { event = t; subscriber = name; error = text } ∷ [])
  Logs-append name text x h unlogged = logs h unlogged
  Logs-append name text x h (logs q r) = logs q (Logs-append name text x h r)

module _ {World Payload Failure Panic : Type 0} where
  -- The worlds that the subscribers of an event pass through, and how each of them ends: every one
  -- of them runs once, in order, on the world that the one before it left.
  pub data Runs (e : Event Payload)
      : List (Subscription World Payload Failure Panic)
        → World
        → World
        → List (Outcome Failure Panic)
        → Type 0 where
    done : {w : World} → Runs e [] w w []
    runs :
        {s : Subscription World Payload Failure Panic}
        {subs : List (Subscription World Payload Failure Panic)} {w w'' : World}
        {o : Outcome Failure Panic} {os : List (Outcome Failure Panic)}
        → (s.fn w e).1 ≡ o
        → Runs e subs (s.fn w e).0 w'' os
        → Runs e (s ∷ subs) w w'' (o ∷ os)

  -- The failures among the ends, in order, each under the name of its subscriber.
  unfoldable pub failures :
      List (Subscription World Payload Failure Panic)
      → List (Outcome Failure Panic)
      → List (String × DeliveryError Failure Panic)
  failures [] os = []
  failures (s ∷ subs) [] = []
  failures (s ∷ subs) (ok ∷ os) = failures subs os
  failures (s ∷ subs) (failed x ∷ os) = (s.name, returned x) ∷ failures subs os
  failures (s ∷ subs) (panicked r ∷ os) = (s.name, contained s.name r) ∷ failures subs os

  module _ (errors : Errors Failure Panic) where
    -- How `Publish` may end: either all the subscribers have run, or they have run up to the first
    -- that returned an error whose text panics.
    pub data Delivers (e : Event Payload) (subs : List (Subscription World Payload Failure Panic))
        (w : World) (out : Published World Payload Failure Panic) : Type 0 where
      complete :
          (ends : List (Outcome Failure Panic))
          → Runs e subs w out.world ends
          → out.errs ≡ some (map (λ f. f.1) (failures subs ends))
          → Logs errors e.type (failures subs ends) out.log
          → Delivers e subs w out
      cut :
          (front rest : List (Subscription World Payload Failure Panic))
          (s : Subscription World Payload Failure Panic) (ends : List (Outcome Failure Panic))
          (x : Failure)
          → subs ≡ front ++ s ∷ rest
          → Runs e (front ++ s ∷ []) w out.world (ends ++ failed x ∷ [])
          → errors.message x ≡ none
          → out.errs ≡ none
          → Logs errors e.type (failures front ends) out.log
          → Delivers e subs w out

    -- One subscriber in front that did not fail, and one that failed with an error that has a text.
    passed-Delivers :
        (e : Event Payload) (s : Subscription World Payload Failure Panic)
        (subs : List (Subscription World Payload Failure Panic)) (w : World)
        (out : Published World Payload Failure Panic)
        → (s.fn w e).1 ≡ ok
        → Delivers e subs (s.fn w e).0 out
        → Delivers e (s ∷ subs) w out
    unfolding failures
    passed-Delivers e s subs w out q (complete ends r es ls) = complete (ok ∷ ends) (runs q r) es ls
    passed-Delivers e s subs w out q (cut front rest t ends x split r mute es ls) =
        cut (s ∷ front) rest t (ok ∷ ends) x (ap (λ l. s ∷ l) split) (runs q r) mute es ls

    abbrev logged :
        Event Payload
        → String
        → String
        → DeliveryError Failure Panic
        → Published World Payload Failure Panic
        → Published World Payload Failure Panic
    logged e name text x out = record {
      world = out.world;
      errs = Option.map (λ xs. x ∷ xs) out.errs;
      log = record { event = e.type; subscriber = name; error = text } ∷ out.log;
    }

    noted-Delivers :
        (e : Event Payload) (s : Subscription World Payload Failure Panic)
        (subs : List (Subscription World Payload Failure Panic)) (w : World)
        (out : Published World Payload Failure Panic) (o : Outcome Failure Panic)
        (x : DeliveryError Failure Panic) (text : String)
        → (s.fn w e).1 ≡ o
        → ((front : List (Subscription World Payload Failure Panic))
            → (ends : List (Outcome Failure Panic))
            → failures (s ∷ front) (o ∷ ends) ≡ (s.name, x) ∷ failures front ends)
        → error_text errors x ≡ some text
        → Delivers e subs (s.fn w e).0 out
        → Delivers e (s ∷ subs) w (logged e s.name text x out)
    noted-Delivers e s subs w out o x text q head told (complete ends r es ls) =
        complete (o ∷ ends) (runs q r) (rw (head subs ends, es) refl)
          (rw (head subs ends) (logs told ls))
    noted-Delivers e s subs w out o x text q head told
          (cut front rest t ends y split r mute es ls) =
        cut (s ∷ front) rest t (o ∷ ends) y (ap (λ l. s ∷ l) split) (runs q r) mute (rw es refl)
          (rw (head front ends) (logs told ls))

    deliver_all-Delivers :
        (e : Event Payload) (subs : List (Subscription World Payload Failure Panic)) (w : World)
        → Delivers e subs w (deliver_all errors subs e w)
    unfolding deliver_all failures error_text deliver
    deliver_all-Delivers e [] w = complete [] done refl unlogged
    deliver_all-Delivers e (s ∷ subs) w =
        let rest = deliver_all-Delivers e subs (s.fn w e).0 in
        elim (Outcome-cases (s.fn w e).1) [
          | inl q ↦ rw (q, deliver_all, deliver) (passed-Delivers e s subs w _ q rest)
          | inr (inl (x, q)) ↦ elim (Option-cases (errors.message x)) [
            | inl m ↦
                rw (q, m, deliver_all, deliver, error_text)
                  (cut [] subs s [] x refl (runs q done) m refl unlogged)
            | inr (text, m) ↦
                rw (q, m, deliver_all, deliver, error_text)
                  (noted-Delivers e s subs w _ (failed x) (returned x) text q (λ front ends. refl) m
                    rest)
          ]
          | inr (inr (r, q)) ↦
              rw (q, deliver_all, deliver, error_text)
                (noted-Delivers e s subs w _ (panicked r) (contained s.name r)
                  (errors.panic_text s.name r) q (λ front ends. refl) refl rest)
        ]

    -- `Publish` ends in one of two ways. Either every subscriber of the event has run once, in
    -- order, whatever the others returned and even if they panicked; then it returns exactly the
    -- failures, panics included, in that order, and logs each of them with its text under the name
    -- of its subscriber. Or it panics, because one of them, after those before it, returned an error
    -- whose `Error` method panics; then those behind it have not run, and the log has the failures
    -- before it.
    pub publish_lem :
        (e : Event Payload) (b : Bus World Payload Failure Panic) (w : World)
        → Delivers e (b.subs e.type) w (publish errors e b w)
    unfolding publish
    publish_lem e b w = deliver_all-Delivers e (b.subs e.type) w
