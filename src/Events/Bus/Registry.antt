-- ===== src/Events/Bus/Registry.antt =====
-- Registration on the bus of internal/events/bus.go.
use Prim.Native.String.{String}
use mathlib.Core.Bool.{false≢true}
use mathlib.Core.Option.{some-injective, none-ne-some}
use lumi_panel.Base.{
  ◌≡◌, ◌≢◌, ◌⊎◌, inl, inr, ◌↔◌, ◌∙◌, refl, sym, arith, true, Bool-cases, none, some, List, [], ◌∷◌,
  ◌++◌, map, if◌then◌else◌,
}
use lumi_panel.Base.Text.{eq_text, eq_text_iff}
use lumi_panel.Events.Bus.{EventType, Subscription, Bus, new_bus, has_name, subscribe, subscribers}

-- A name stands in a list of names.
abbrev pub Names : String → List String → Type 0
Names n [] = ⊥
Names n (x ∷ xs) = (x ≡ n) ⊎ Names n xs

abbrev pub AreDistinct : List String → Type 0
AreDistinct [] = Unit
AreDistinct (x ∷ xs) = (¬ Names x xs) × AreDistinct xs

module _ {World Payload Failure Panic : Type 0} where
  pub has_name_iff :
      (n : String) (subs : List (Subscription World Payload Failure Panic))
      → (has_name n subs ≡ true) ↔ Names n (map (λ s. s.name) subs)
  unfolding has_name
  has_name_iff n [] = ground arith
  has_name_iff n (s ∷ subs) = ground (arith, has_name_iff n subs, eq_text_iff s.name n)

  -- `Subscribe` panics exactly when the event has a subscriber of that name. Otherwise the new one
  -- comes last for its event, and the other events keep their subscribers.
  pub subscribe_lem :
      (t : EventType) (s : Subscription World Payload Failure Panic)
      (b : Bus World Payload Failure Panic)
      → ((subscribe t s b ≡ none) × Names s.name (subscribers t b))
        ⊎ ((b' : Bus World Payload Failure Panic) × (subscribe t s b ≡ some b')
            × (¬ Names s.name (subscribers t b))
            × (b'.subs t ≡ b.subs t ++ s ∷ [])
            × ((u : EventType) → t ≢ u → b'.subs u ≡ b.subs u))
  unfolding subscribe subscribers
  subscribe_lem t s b = elim (Bool-cases (has_name s.name (b.subs t))) [
    | inl e ↦ inl (rw e refl, (has_name_iff s.name (b.subs t)).0 e)
    | inr e ↦ inr (
      record { subs = λ u. if eq_text t u then b.subs u ++ s ∷ [] else b.subs u },
      rw e refl,
      (λ h. absurd (false≢true (sym e ∙ (has_name_iff s.name (b.subs t)).1 h))),
      rw ((eq_text_iff t t).1 refl) refl,
      λ u ne. ground (arith, eq_text_iff t u),
    )
  ]

  -- The buses that some sequence of registrations leads to.
  pub data Registers : Bus World Payload Failure Panic → Type 0 where
    start : Registers new_bus
    next :
        {b b' : Bus World Payload Failure Panic} (t : EventType)
        (s : Subscription World Payload Failure Panic)
        → Registers b
        → subscribe t s b ≡ some b'
        → Registers b'

  Names-append :
      (subs : List (Subscription World Payload Failure Panic))
      (s : Subscription World Payload Failure Panic) (k : String)
      → ¬ Names k (map (λ x. x.name) subs)
      → s.name ≢ k
      → ¬ Names k (map (λ x. x.name) (subs ++ s ∷ []))
  Names-append [] s k n ne (inl e) = ne e
  Names-append [] s k n ne (inr h) = h
  Names-append (x ∷ subs) s k n ne (inl e) = n (inl e)
  Names-append (x ∷ subs) s k n ne (inr h) = Names-append subs s k (λ m. n (inr m)) ne h

  AreDistinct-append :
      (subs : List (Subscription World Payload Failure Panic))
      (s : Subscription World Payload Failure Panic)
      → AreDistinct (map (λ x. x.name) subs)
      → ¬ Names s.name (map (λ x. x.name) subs)
      → AreDistinct (map (λ x. x.name) (subs ++ s ∷ []))
  AreDistinct-append [] s d n = ((λ h. h), tt)
  AreDistinct-append (x ∷ subs) s (nx, d) n = (
    Names-append subs s x.name nx (λ e. n (inl (sym e))),
    AreDistinct-append subs s d (λ h. n (inr h)),
  )

  -- After any sequence of registrations the subscribers of each event have distinct names, so that
  -- no side effect of an event fires twice under one name.
  pub Registers-AreDistinct :
      {b : Bus World Payload Failure Panic}
      → Registers b
      → (t : EventType) → AreDistinct (subscribers t b)
  unfolding subscribers
  Registers-AreDistinct start t = tt
  Registers-AreDistinct (next {b} {b'} u s r e) t = elim (subscribe_lem u s b) [
    | inl (q, _) ↦ absurd (none-ne-some b' (sym q ∙ e))
    | inr (c, q, fresh, appended, kept) ↦
        let same : c ≡ b' = some-injective c b' (sym q ∙ e) in
        elim (Bool-cases (eq_text u t)) [
          | inl k ↦
              let ut = (eq_text_iff u t).0 k in
              rw (← same, ← ut, appended)
                (AreDistinct-append (b.subs u) s (Registers-AreDistinct r u) fresh)
          | inr k ↦
              rw (← same, kept t (λ d. absurd (false≢true (sym k ∙ (eq_text_iff u t).1 d))))
                (Registers-AreDistinct r t)
        ]
  ]
