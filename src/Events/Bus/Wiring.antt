-- ===== src/Events/Bus/Wiring.antt =====
-- The startup check of internal/events/bus.go.
use Prim.Native.String.{String}
use lumi_panel.Base.{
  ◌≡◌, ◌⊎◌, ◌↔◌, refl, arith, Bool, true, false, List, [], ◌∷◌, ◌++◌, map, if◌then◌else◌, All,
  All-append,
}
use lumi_panel.Base.Text.{eq_text, less_text}
use lumi_panel.Base.Sort.{sort_stable}
use lumi_panel.Base.Sort.Laws.{All-sort_stable}
use lumi_panel.Events.Bus.{
  EventType, Subscription, Bus, has_name, registered, required_subscribers, names_of, sorted_types,
  Missing, missing_names, missing_types, verify_wiring,
}

append-nil_iff : (xs ys : List Missing) → (xs ++ ys ≡ []) ↔ ((xs ≡ []) × (ys ≡ []))
append-nil_iff [] ys = ((λ e. (refl, e)), (λ (d, e). e))
append-nil_iff (x ∷ xs) ys = ((λ e. cc), (λ (d, e). cc))

module _ {World Payload Failure Panic : Type 0} where
  registered-has_name :
      (n : String) (subs : List (Subscription World Payload Failure Panic)) (m : String → Bool)
      → (registered subs m n ≡ true) ↔ ((has_name n subs ≡ true) ⊎ (m n ≡ true))
  unfolding registered has_name
  registered-has_name n [] m = ground arith
  registered-has_name n (s ∷ subs) m =
      ground (arith, registered-has_name n subs (λ k. if eq_text s.name k then true else m k))

  -- The bus has a subscriber under each of the names.
  abbrev pub HasAll : Bus World Payload Failure Panic → EventType → List String → Type 0
  HasAll b t = All (λ n. has_name n (b.subs t) ≡ true)

  -- The finding is true: the bus has no subscriber of that name for that event.
  abbrev pub IsAbsent : Bus World Payload Failure Panic → Missing → Type 0
  IsAbsent b m = has_name m.name (b.subs m.event) ≡ false

  missing_names-nil :
      (b : Bus World Payload Failure Panic) (t : EventType) (names : List String)
      → (missing_names t (registered (b.subs t) (λ n. false)) names ≡ []) ↔ HasAll b t names
  unfolding missing_names
  missing_names-nil b t [] = ground arith
  missing_names-nil b t (n ∷ names) =
      ground (arith, missing_names-nil b t names, registered-has_name n (b.subs t) (λ k. false))

  missing_names-IsAbsent :
      (b : Bus World Payload Failure Panic) (t : EventType) (names : List String)
      → All (IsAbsent b) (missing_names t (registered (b.subs t) (λ n. false)) names)
  unfolding missing_names
  missing_names-IsAbsent b t [] = tt
  missing_names-IsAbsent b t (n ∷ names) =
      ground
        (arith, missing_names-IsAbsent b t names, registered-has_name n (b.subs t) (λ k. false))

  missing_types-nil :
      (b : Bus World Payload Failure Panic) (ts : List EventType)
      → (missing_types b ts ≡ []) ↔ All (λ t. HasAll b t (names_of t required_subscribers)) ts
  unfolding missing_types
  missing_types-nil b [] = ((λ e. tt), (λ h. refl))
  missing_types-nil b (t ∷ ts) =
      let (f, g) = missing_types-nil b ts in
      let (f', g') = missing_names-nil b t (names_of t required_subscribers) in
      let (split, join) =
        append-nil_iff
          (missing_names t (registered (b.subs t) (λ n. false)) (names_of t required_subscribers))
          (missing_types b ts) in
      ((λ e. let (d, r) = split e in (f' d, f r)), (λ (h, hs). join (g' h, g hs)))

  missing_types-IsAbsent :
      (b : Bus World Payload Failure Panic) (ts : List EventType)
      → All (IsAbsent b) (missing_types b ts)
  unfolding missing_types
  missing_types-IsAbsent b [] = tt
  missing_types-IsAbsent b (t ∷ ts) =
      All-append (IsAbsent b)
        (missing_names t (registered (b.subs t) (λ n. false)) (names_of t required_subscribers))
        (missing_types b ts) (missing_names-IsAbsent b t (names_of t required_subscribers))
        (missing_types-IsAbsent b ts)

  -- The startup check reports only subscribers that are missing, and reports none exactly when
  -- each event of the matrix has all the subscribers that the matrix demands.
  pub verify_wiring_lem :
      (b : Bus World Payload Failure Panic)
      → All (IsAbsent b) (verify_wiring b)
        × ((verify_wiring b ≡ [])
            ↔ All
                (λ t. HasAll b t (names_of t required_subscribers))
                (map (λ e. e.0) required_subscribers))
  unfolding verify_wiring sorted_types
  verify_wiring_lem b =
      let types = map (λ e. e.0) required_subscribers in
      let (f, g) = missing_types-nil b (sort_stable less_text types) in
      let (f', g') =
        All-sort_stable less_text (λ t. HasAll b t (names_of t required_subscribers)) types in
      (missing_types-IsAbsent b (sort_stable less_text types), ((λ e. f' (f e)), (λ h. g (g' h))))
