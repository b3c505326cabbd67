-- ===== src/Events/Bus/Interleaving.antt =====
-- What a call of `Publish` of internal/events/bus.go does, whatever goes on beside it.
use mathlib.Core.List.{append-nil, map-append}
use lumi_panel.Base.{
  ℕ, ◌≡◌, ◌∙◌, refl, sym, ap, Bool-cases, inl, inr, Option-cases, List, [], ◌∷◌, ◌++◌, map, ◌==◌,
  ==_iff,
}
use lumi_panel.Events.Bus.{Event, Outcome, DeliveryError, Errors, error_text, Subscription, Bus}
use lumi_panel.Events.Bus.Delivery.{failures, unlogged, Logs-append}
use lumi_panel.Events.Bus.Flights.{
  Progress, Flight, looping, handling, telling, landed, System, no_progress, delivery_error, note,
  tell, fly, Step, registers, begins, calls, ends, tells, returns, After, began, next,
}
use lumi_panel.Events.Bus.Accounts.{
  called, Accounts, Owes, Covers, failures-append, failures-one, failures-none, called-made,
}

module _ {World Payload Failure Panic : Type 0} where
  module _ (errors : Errors Failure Panic) where
    note-Covers :
        (e : Event Payload) (subs : List (Subscription World Payload Failure Panic))
        (s : Subscription World Payload Failure Panic) (o : Outcome Failure Panic)
        (rest : List (Subscription World Payload Failure Panic))
        (p : Progress World Payload Failure Panic)
        → called p ++ s ∷ rest ≡ subs
        → Accounts errors e p
        → Covers errors e subs (note e s o rest p)
    unfolding note
    note-Covers e subs s o rest p split a = elim (Option-cases (delivery_error s o)) [
      | inl h ↦
          let same = failures-append p.made s o ∙ (rw (failures-none s o h, append-nil) refl) in
          rw (h, note)
            (
              refl,
              called-made p.made s o rest subs split,
              record { errs = rw same a.errs; log = rw same a.log },
            )
      | inr (x, h) ↦
          let more = failures-append p.made s o in
          rw (h, note)
            (
              refl,
              called-made p.made s o rest subs split,
              record {
                earlier = p.made;
                outcome = o;
                fails = h;
                last = refl;
                errs = rw (more, failures-one s o x h, map-append, ← a.errs) refl;
                log = a.log;
              },
            )
    ]

    tell-Covers :
        (e : Event Payload) (subs : List (Subscription World Payload Failure Panic))
        (s : Subscription World Payload Failure Panic) (x : DeliveryError Failure Panic)
        (rest : List (Subscription World Payload Failure Panic))
        (p : Progress World Payload Failure Panic)
        → called p ++ rest ≡ subs
        → Owes errors e s x p
        → Covers errors e subs (tell errors e s x rest p)
    unfolding tell
    tell-Covers e subs s x rest p split owed = elim (Option-cases (error_text errors x)) [
      | inl h ↦
          rw (h, tell)
            (
              refl,
              record {
                rest = rest;
                split = split;
                subscription = s;
                error = x;
                mute = h;
                owes = owed;
              },
            )
      | inr (text, h) ↦
          let more =
            failures-append owed.earlier s owed.outcome
            ∙ ap (λ l. failures (map (λ c. c.0) owed.earlier) (map (λ c. c.1) owed.earlier) ++ l)
                (failures-one s owed.outcome x owed.fails) in
          rw (h, tell)
            (
              refl,
              split,
              record {
                errs = owed.errs;
                log = rw (owed.last, more) (Logs-append errors s.name text x h owed.log);
              },
            )
    ]

    -- A step of the call itself, or one of another call, which leaves it where it stood.
    fly-Covers :
        (e : Event Payload) (subs : List (Subscription World Payload Failure Panic)) (i j : ℕ)
        (f : Flight World Payload Failure Panic) (s : System World Payload Failure Panic)
        → Covers errors e subs (s.flights i)
        → (Covers errors e subs (s.flights j) → Covers errors e subs f)
        → Covers errors e subs ((fly j f s).flights i)
    fly-Covers e subs i j f s h move = elim (Bool-cases (j == i)) [
      | inl d ↦ rw d (move (rw ((==_iff j i).0 d) h))
      | inr d ↦ rw d h
    ]

    Step-Covers :
        {s t : System World Payload Failure Panic} (e : Event Payload)
        (subs : List (Subscription World Payload Failure Panic)) (i : ℕ)
        → Step errors s t
        → Covers errors e subs (s.flights i)
        → Covers errors e subs (t.flights i)
    Step-Covers e subs i (registers u sub q) h = h
    Step-Covers {s} e subs i (begins j e' q) h =
        fly-Covers e subs i j (looping e' (s.bus.subs e'.type) no_progress) s h
          (λ k. absurd (rw q at k))
    Step-Covers {s} e subs i (calls {e = e'} {sub} {rest} {p} j q) h =
        fly-Covers e subs i j (handling e' sub rest p) s h (λ k. rw q at k)
    Step-Covers {s} e subs i (ends {e = e'} {sub} {rest} {p} j o q) h =
        fly-Covers e subs i j (note e' sub o rest p) s h (λ k.
          let (same, split, accounts) : Covers errors e subs (handling e' sub rest p) = rw q at k in
          rw same (note-Covers e subs sub o rest p split accounts))
    Step-Covers {s} e subs i (tells {e = e'} {sub} {x} {rest} {p} j q) h =
        fly-Covers e subs i j (tell errors e' sub x rest p) s h (λ k.
          let (same, split, owed) : Covers errors e subs (telling e' sub x rest p) = rw q at k in
          rw same (tell-Covers e subs sub x rest p split owed))
    Step-Covers {s} e subs i (returns {e = e'} {p} j q) h =
        fly-Covers e subs i j (landed e' p) s h (λ k.
          let (same, split, accounts) : Covers errors e subs (looping e' [] p) = rw q at k in
          (same, sym (append-nil (called p)) ∙ split, accounts))

    -- From the moment a call of `Publish` begins, whatever calls and registrations go on beside it
    -- and however the handlers end: it runs the subscribers that the bus had for the event when it
    -- began, each once, in order, and no other, all of them by its return. Its errors hold exactly
    -- the failures of those that it has run, panics included, in order, and its log holds their
    -- texts, but for the last failure while the text is being asked for. It panics only if the text
    -- of the last failure panics.
    pub After-Covers :
        {i : ℕ} {e : Event Payload} {b : Bus World Payload Failure Panic}
        {s : System World Payload Failure Panic}
        → After errors i e b s
        → Covers errors e (b.subs e.type) (s.flights i)
    unfolding failures
    After-Covers {i} (began s same fresh) =
        rw ((==_iff i i).1 refl) (refl, refl, record { errs = refl; log = unlogged })
    After-Covers {i} {e} {b} (next before step) =
        Step-Covers e (b.subs e.type) i step (After-Covers before)
