-- ===== src/Events/Bus/Startup.antt =====
-- The startup check of internal/events/bus.go and the calls of `Publish` that come after it.
use Prim.Native.String.{String}
use mathlib.Core.Bool.{false≢true}
use mathlib.Core.Option.{some-injective, none-ne-some}
use lumi_panel.Base.{
  ℕ, ◌≡◌, ◌⊎◌, inl, inr, ◌∙◌, refl, sym, arith, Bool-cases, true, some, List, [], ◌∷◌, ◌++◌, map,
  All, All-imp, Any, All-Any,
}
use lumi_panel.Base.Text.{eq_text, eq_text_iff}
use lumi_panel.Events.Bus.{
  EventType, Event, Errors, Subscription, Bus, has_name, subscribe, subscribers,
  required_subscribers, names_of, verify_wiring,
}
use lumi_panel.Events.Bus.Registry.{
  Names, AreDistinct, has_name_iff, subscribe_lem, Registers, Registers-AreDistinct,
}
use lumi_panel.Events.Bus.Registry
use lumi_panel.Events.Bus.Wiring.{HasAll, verify_wiring_lem}
use lumi_panel.Events.Bus.Flights.{Progress, landed, System, After}
use lumi_panel.Events.Bus.Accounts.{called, Covers}
use lumi_panel.Events.Bus.Interleaving.{After-Covers}

-- A type that the matrix does not list demands nothing.
names_of-listed :
    (t : EventType) (m : List (EventType × List String))
    → (names_of t m ≡ []) ⊎ Any (λ u. u ≡ t) (map (λ e. e.0) m)
unfolding names_of
names_of-listed t [] = inl refl
names_of-listed t ((u, names) ∷ m) = elim (Bool-cases (eq_text u t)) [
  | inl e ↦ inr (inl ((eq_text_iff u t).0 e))
  | inr e ↦ elim (names_of-listed t m) [ inl q ↦ inl (rw e q) | inr q ↦ inr (inr q) ]
]

module _ {World Payload Failure Panic : Type 0} where
  -- The buses that registrations lead to from this one.
  pub data Later (b : Bus World Payload Failure Panic)
      : Bus World Payload Failure Panic → Type 0 where
    now : Later b b
    more :
        {c d : Bus World Payload Failure Panic} (t : EventType)
        (s : Subscription World Payload Failure Panic)
        → Later b c
        → subscribe t s c ≡ some d
        → Later b d

  has_name-append :
      (n : String) (subs : List (Subscription World Payload Failure Panic))
      (s : Subscription World Payload Failure Panic)
      → has_name n subs ≡ true
      → has_name n (subs ++ s ∷ []) ≡ true
  unfolding has_name
  has_name-append n [] s h = cc
  has_name-append n (x ∷ subs) s h = ground (arith, has_name-append n subs s)

  -- No registration takes a subscriber away.
  Later-has_name :
      {b c : Bus World Payload Failure Panic} (t : EventType) (n : String)
      → Later b c
      → has_name n (b.subs t) ≡ true
      → has_name n (c.subs t) ≡ true
  Later-has_name t n now h = h
  Later-has_name {b} t n (more {c} {d} u s l q) h = elim (subscribe_lem u s c) [
    | inl (e, _) ↦ absurd (none-ne-some d (sym e ∙ q))
    | inr (d', e, fresh, appended, kept) ↦
        let before = Later-has_name t n l h in
        let same : d' ≡ d = some-injective d' d (sym e ∙ q) in
        elim (Bool-cases (eq_text u t)) [
          | inl k ↦
              let ut = (eq_text_iff u t).0 k in
              rw (← same, ← ut, appended) (has_name-append n (c.subs u) s (rw ut before))
          | inr k ↦
              rw (← same, kept t (λ d. absurd (false≢true (sym k ∙ (eq_text_iff u t).1 d)))) before
        ]
  ]

  Later-Registers : {b c : Bus World Payload Failure Panic} → Registers b → Later b c → Registers c
  Later-Registers r now = r
  Later-Registers r (more t s l q) = Registry.next t s (Later-Registers r l) q

  -- A bus that passes the check has every subscriber that the matrix demands for the type.
  wired-HasAll :
      (b : Bus World Payload Failure Panic)
      → verify_wiring b ≡ []
      → (t : EventType) → HasAll b t (names_of t required_subscribers)
  wired-HasAll b wired t =
      let listed = ((verify_wiring_lem b).1.0 wired) in
      elim (names_of-listed t required_subscribers) [
        | inl none ↦ rw none tt
        | inr key ↦
            let (u, (all, same)) =
              All-Any (λ u. HasAll b u (names_of u required_subscribers)) (λ u. u ≡ t)
                (map (λ e. e.0) required_subscribers) listed key in
            rw (← same) all
      ]

  -- Once the startup check has found nothing missing on a bus that registrations have built, every
  -- call of `Publish` that returns has run each side effect that the matrix demands for its event,
  -- and none twice: whatever registers after the check, and whatever goes on during the call.
  pub wired_publish-reaches :
      {b c : Bus World Payload Failure Panic}
      → Registers b
      → verify_wiring b ≡ []
      → Later b c
      → {errors : Errors Failure Panic} {i : ℕ} {e e' : Event Payload}
        {s : System World Payload Failure Panic} {p : Progress World Payload Failure Panic}
      → After errors i e c s
      → s.flights i ≡ landed e' p
      → let ran = map (λ x. x.name) (called p) in
        All (λ n. Names n ran) (names_of e.type required_subscribers) × AreDistinct ran
  wired_publish-reaches {b} {c} r wired l {errors} {i} {e} {e'} {s} {p} a done =
      let covered : Covers errors e (c.subs e.type) (s.flights i) = After-Covers errors a in
      let (same, all, accounts) : Covers errors e (c.subs e.type) (landed e' p) =
        rw done at covered in
      rw all (
        All-imp (λ n. has_name n (b.subs e.type) ≡ true)
            (λ n. Names n (map (λ x. x.name) (c.subs e.type)))
            (λ n h. (has_name_iff n (c.subs e.type)).0 (Later-has_name e.type n l h))
            (names_of e.type required_subscribers) (wired-HasAll b wired e.type),
        unfold subscribers in Registers-AreDistinct (Later-Registers r l) e.type,
      )
