-- ===== src/Base/Assoc.antt =====
-- Go maps with int64 keys, as association lists: a key occurs once at most.
use mathlib.Core.Path.{subst, ap₂}
use mathlib.Core.Option
use mathlib.Core.Option.{some-injective}
use lumi_panel.Base.{
  ◌≡◌, ◌≢◌, ◌∙◌, refl, sym, ==ℤ_iff, map, Option, none, some, List, [], ◌∷◌, arith, ℤ, ◌==ℤ◌,
  if◌then◌else◌, Bool-cases, inl, inr,
}

module _ {ℓ} {V : Type ℓ} where
  unfoldable pub lookup : ℤ → List (ℤ × V) → Option V
  lookup k [] = none
  lookup k ((j, v) ∷ m) = if j ==ℤ k then some v else lookup k m

  unfoldable pub insert : ℤ → V → List (ℤ × V) → List (ℤ × V)
  insert k v [] = (k, v) ∷ []
  insert k v ((j, w) ∷ m) = if j ==ℤ k then (k, v) ∷ m else (j, w) ∷ insert k v m

  -- Every entry of the key goes, so that a lookup finds none whatever the list.
  unfoldable pub delete : ℤ → List (ℤ × V) → List (ℤ × V)
  delete k [] = []
  delete k ((j, w) ∷ m) = let rest = delete k m in if j ==ℤ k then rest else (j, w) ∷ rest

  pub lookup-insert :
      (k j : ℤ) (v : V) (m : List (ℤ × V))
      → lookup j (insert k v m) ≡ (if k ==ℤ j then some v else lookup j m)
  unfolding lookup insert
  lookup-insert k j v [] = refl
  lookup-insert k j v ((i, w) ∷ m) = ground (arith, lookup-insert k j v m)

  pub insert-same : (k : ℤ) (v : V) (m : List (ℤ × V)) → lookup k m ≡ some v → insert k v m ≡ m
  unfolding lookup insert
  insert-same k v [] e = cc
  insert-same k v ((j, w) ∷ m) e = ground (arith, insert-same k v m, ==ℤ_iff j k)

  pub lookup-delete :
      (k j : ℤ) (m : List (ℤ × V)) → lookup j (delete k m) ≡ (if k ==ℤ j then none else lookup j m)
  unfolding lookup delete
  lookup-delete k j [] = ground arith
  lookup-delete k j ((i, w) ∷ m) = ground (arith, lookup-delete k j m)

module _ {ℓ κ} {V : Type ℓ} (P : V → Type κ) where
  -- What holds of every value of the map.
  abbrev pub Every : List (ℤ × V) → Type κ
  Every [] = Unit
  Every ((k, v) ∷ m) = P v × Every m

  pub Every-insert : (k : ℤ) (v : V) (m : List (ℤ × V)) → P v → Every m → Every (insert k v m)
  unfolding insert
  Every-insert k v [] h hs = (h, tt)
  Every-insert k v ((j, w) ∷ m) h (hw, hs) = ground (arith, Every-insert k v m h hs)

  pub Every-delete : (k : ℤ) (m : List (ℤ × V)) → Every m → Every (delete k m)
  unfolding delete
  Every-delete k [] hs = tt
  Every-delete k ((j, w) ∷ m) (hw, hs) = ground (arith, Every-delete k m hs)

  pub Every-lookup : (k : ℤ) (m : List (ℤ × V)) {v : V} → Every m → lookup k m ≡ some v → P v
  unfolding lookup
  Every-lookup k [] hs e = cc
  Every-lookup k ((j, w) ∷ m) {v} (hw, hs) e = elim (Bool-cases (j ==ℤ k)) [
    | inl q ↦ subst P (some-injective _ _ (rw (q, lookup) at e)) hw
    | inr q ↦ Every-lookup k m hs (rw (q, lookup) at e)
  ]

pub Every-imp {ℓ κ μ} :
    {V : Type ℓ} (P : V → Type κ) (Q : V → Type μ)
    → ((v : V) → P v → Q v)
    → (m : List (ℤ × V)) → Every P m
    → Every Q m
Every-imp P Q f [] h = tt
Every-imp P Q f ((k, v) ∷ m) (h, hs) = (f v h, Every-imp P Q f m hs)

-- No two entries have the same value.
abbrev pub AreApart {ℓ} : {V : Type ℓ} → List (ℤ × V) → Type ℓ
AreApart [] = Unit
AreApart ((k, v) ∷ m) = Every (λ w. v ≢ w) m × AreApart m

module _ {ℓ} {V : Type ℓ} where
  pub AreApart-insert :
      (k : ℤ) (v : V) (m : List (ℤ × V))
      → Every (λ w. v ≢ w) m
      → AreApart m
      → AreApart (insert k v m)
  unfolding insert
  AreApart-insert k v [] n a = (tt, tt)
  AreApart-insert k v ((j, w) ∷ m) (nw, n) (nm, a) = elim (Bool-cases (j ==ℤ k)) [
    | inl e ↦ rw e (n, a)
    | inr e ↦ rw e (Every-insert (λ x. w ≢ x) k v m (λ q. nw (sym q)) nm, AreApart-insert k v m n a)
  ]

  pub AreApart-delete : (k : ℤ) (m : List (ℤ × V)) → AreApart m → AreApart (delete k m)
  unfolding delete
  AreApart-delete k [] a = tt
  AreApart-delete k ((j, w) ∷ m) (nm, a) = elim (Bool-cases (j ==ℤ k)) [
    | inl e ↦ rw e (AreApart-delete k m a)
    | inr e ↦ rw e (Every-delete (λ x. w ≢ x) k m nm, AreApart-delete k m a)
  ]

module _ {ℓ κ} {V : Type ℓ} {W : Type κ} where
  abbrev pub map_values : (V → W) → List (ℤ × V) → List (ℤ × W)
  map_values f m = map (λ e. (e.0, f e.1)) m

  pub map_values-same :
      (f g : V → W) (m : List (ℤ × V)) → Every (λ v. f v ≡ g v) m → map_values f m ≡ map_values g m
  map_values-same f g [] h = refl
  map_values-same f g ((k, v) ∷ m) (h, hs) =
      ap₂ (λ (w : W) (l : List (ℤ × W)). (k, w) ∷ l) h (map_values-same f g m hs)

  -- A change of one value in place, seen through the map, is an insertion.
  pub insert-map_values_at :
      (f g : V → W) (k : ℤ) (v : V) (m : List (ℤ × V))
      → lookup k m ≡ some v
      → AreApart m
      → ((w : V) → v ≢ w → f w ≡ g w)
      → insert k (g v) (map_values f m) ≡ map_values g m
  unfolding insert lookup
  insert-map_values_at f g k v [] e a same = cc
  insert-map_values_at f g k v ((j, w) ∷ m) e (n, a) same = elim (Bool-cases (j ==ℤ k)) [
    | inl q ↦
        let here = some-injective w v (rw (q, lookup) at e) in
        let rest =
          map_values-same f g m
            (Every-imp (λ x. w ≢ x) (λ x. f x ≡ g x) (λ x ne. same x (λ d. ne (here ∙ d))) m n) in
        rw (q, (==ℤ_iff j k).0 q, here, rest) refl
    | inr q ↦
        let later : lookup k m ≡ some v = rw (q, lookup) at e in
        let other = same w (λ d. Every-lookup (λ x. w ≢ x) k m n later (sym d)) in
        rw (q, other, insert-map_values_at f g k v m later a same) refl
  ]

  module _ (f : V → W) where
    pub lookup-map_values :
        (k : ℤ) (m : List (ℤ × V)) → lookup k (map_values f m) ≡ Option.map f (lookup k m)
    unfolding lookup
    lookup-map_values k [] = refl
    lookup-map_values k ((j, w) ∷ m) = elim (Bool-cases (j ==ℤ k)) [
      | inl e ↦ rw e refl
      | inr e ↦ rw e (lookup-map_values k m)
    ]

    pub insert-map_values :
        (k : ℤ) (v : V) (m : List (ℤ × V))
        → insert k (f v) (map_values f m) ≡ map_values f (insert k v m)
    unfolding insert
    insert-map_values k v [] = refl
    insert-map_values k v ((j, w) ∷ m) = elim (Bool-cases (j ==ℤ k)) [
      | inl e ↦ rw e refl
      | inr e ↦ rw e (rw (insert-map_values k v m) refl)
    ]

    pub delete-map_values :
        (k : ℤ) (m : List (ℤ × V)) → delete k (map_values f m) ≡ map_values f (delete k m)
    unfolding delete
    delete-map_values k [] = refl
    delete-map_values k ((j, w) ∷ m) = elim (Bool-cases (j ==ℤ k)) [
      | inl e ↦ rw e (delete-map_values k m)
      | inr e ↦ rw e (rw (delete-map_values k m) refl)
    ]
