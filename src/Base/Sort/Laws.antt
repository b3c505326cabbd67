-- ===== src/Base/Sort/Laws.antt =====
-- A stable sort by a strict weak order: the result is a sorted permutation, the only one if
-- elements that compare equal are equal, and sorting a sorted list changes nothing.
use mathlib.Core.Path.{ap₂}
use mathlib.Core.Logic.Or
use mathlib.Core.List.{Mem, Perm, Pairwise, mem-cons, mem-cons_self, not-mem-nil, Pairwise-cons}
use mathlib.Core.List.Perm
use lumi_panel.Base.{
  ◌↔◌, All, ◌≡◌, refl, Bool, true, false, List, [], ◌∷◌, map, Bool-cases, inl, inr,
}
use lumi_panel.Base.Sort.{insert_sorted, sort_stable}

pub record IsWeakOrder {ℓ} {A : Type ℓ} (less : A → A → Bool) : Type ℓ where
  pub asym : (a b : A) → less a b ≡ true → less b a ≡ false
  pub not_less_trans : (a b c : A) → less a b ≡ false → less b c ≡ false → less a c ≡ false

pub Bool_eq-prop : {a b : Bool} → IsProp (a ≡ b)
Bool_eq-prop = hlevel

module _ {ℓ} {A : Type ℓ} (less : A → A → Bool) where
  -- No later element is less than an earlier one.
  abbrev pub IsSorted : List A → Type ℓ
  IsSorted = Pairwise (λ a b. less b a ≡ false)

  insert_sorted-perm : (x : A) (l : List A) → Perm (insert_sorted less x l) (x ∷ l)
  unfolding insert_sorted
  insert_sorted-perm x [] = Perm.rfl
  insert_sorted-perm x (y ∷ ys) = elim (Bool-cases (less y x)) [
    | inl e ↦
        rw (e, insert_sorted)
          (Perm.trans (Perm.cons y (insert_sorted-perm x ys)) (Perm.swap x y ys))
    | inr e ↦ rw (e, insert_sorted) Perm.rfl
  ]

  pub sort_stable-perm : (l : List A) → Perm (sort_stable less l) l
  unfolding sort_stable
  sort_stable-perm [] = Perm.rfl
  sort_stable-perm (x ∷ xs) =
      Perm.trans (insert_sorted-perm x (sort_stable less xs)) (Perm.cons x (sort_stable-perm xs))

  -- A list that is sorted already is left as it is: equal elements keep their order.
  pub sort_stable_of_IsSorted : (l : List A) → IsSorted l → sort_stable less l ≡ l
  unfolding sort_stable insert_sorted
  sort_stable_of_IsSorted [] s = refl
  sort_stable_of_IsSorted (x ∷ []) s = refl
  sort_stable_of_IsSorted (x ∷ y ∷ l) s =
      let (below, rest) = Pairwise-cons.0 s in
      rw (sort_stable_of_IsSorted (y ∷ l) rest) (rw (below y mem-cons_self) refl)

  module _ (order : IsWeakOrder less) where
    insert_sorted-IsSorted : (x : A) (l : List A) → IsSorted l → IsSorted (insert_sorted less x l)
    unfolding insert_sorted
    insert_sorted-IsSorted x [] s = Pairwise-cons.1 ((λ z m. absurd (not-mem-nil m)), s)
    insert_sorted-IsSorted x (y ∷ ys) s =
        let (below, rest) = Pairwise-cons.0 s in
        elim (Bool-cases (less y x)) [
          | inl e ↦
              rw (e, insert_sorted)
                (Pairwise-cons.1 (
                  (λ z m.
                      Or.elim Bool_eq-prop
                        (mem-cons.0 ((Perm.mem_iff (insert_sorted-perm x ys)).0 m))
                        (λ q. rw q (order.asym y x e)) (below z)),
                  insert_sorted-IsSorted x ys rest,
                ))
          | inr e ↦
              rw (e, insert_sorted)
                (Pairwise-cons.1 (
                  (λ z m.
                      Or.elim Bool_eq-prop (mem-cons.0 m) (λ q. rw q e)
                        (λ m'. order.not_less_trans z y x (below z m') e)),
                  s,
                ))
        ]

    pub sort_stable-IsSorted : (l : List A) → IsSorted (sort_stable less l)
    unfolding sort_stable
    sort_stable-IsSorted [] = Pairwise.nil
    sort_stable-IsSorted (x ∷ xs) =
        insert_sorted-IsSorted x (sort_stable less xs) (sort_stable-IsSorted xs)

    irrefl : (a : A) → less a a ≡ false
    irrefl a = elim (Bool-cases (less a a)) [ inl e ↦ order.asym a a e | inr e ↦ e ]

  -- Elements of the list that compare equal are one element.
  abbrev pub Separates : List A → Type ℓ
  Separates l = (a b : A) → Mem a l → Mem b l → less a b ≡ false → less b a ≡ false → a ≡ b

  Separates-tail : {a : A} {l : List A} → Separates (a ∷ l) → Separates l
  Separates-tail sep x y mx my = sep x y (mem-cons.1 (Or.inr mx)) (mem-cons.1 (Or.inr my))

  module _ (order : IsWeakOrder less) where
    -- The head of a sorted list is below each of its members.
    head_below : {a b : A} {l : List A} → IsSorted (a ∷ l) → Mem b (a ∷ l) → less b a ≡ false
    head_below {a} {b} s m =
        Or.elim Bool_eq-prop (mem-cons.0 m) (λ e. rw e (irrefl order a)) ((Pairwise-cons.0 s).0 b)

    pub IsSorted-eq_of_perm :
        (l r : List A) → IsSorted l → IsSorted r → Perm l r → Separates l → l ≡ r
    IsSorted-eq_of_perm [] r sl sr p sep = Perm.nil-eq p
    IsSorted-eq_of_perm (a ∷ l) [] sl sr p sep = Perm.eq-nil p
    IsSorted-eq_of_perm (a ∷ l) (b ∷ r) sl sr p sep =
        let b_in = (Perm.mem_iff p).1 mem-cons_self in
        let a_in = (Perm.mem_iff p).0 mem-cons_self in
        let heads = sep a b mem-cons_self b_in (head_below sr a_in) (head_below sl b_in) in
        let tails = Perm.cons_inv (Perm.trans p (Perm.symm (Perm.cons' heads Perm.rfl))) in
        ap₂ ◌∷◌ heads (
          IsSorted-eq_of_perm l r (Pairwise-cons.0 sl).1 (Pairwise-cons.0 sr).1 tails
            (Separates-tail sep))

    -- The result of the sort depends on the members alone, not on their order.
    pub sort_stable-eq_of_perm :
        (l r : List A) → Perm l r → Separates l → sort_stable less l ≡ sort_stable less r
    sort_stable-eq_of_perm l r p sep =
        let sorted = sort_stable-perm l in
        IsSorted-eq_of_perm (sort_stable less l) (sort_stable less r) (sort_stable-IsSorted order l)
          (sort_stable-IsSorted order r)
          (Perm.trans sorted (Perm.trans p (Perm.symm (sort_stable-perm r))))
          (λ a b ma mb. sep a b ((Perm.mem_iff sorted).0 ma) ((Perm.mem_iff sorted).0 mb))

module _ {ℓ κ} {A : Type ℓ} (less : A → A → Bool) (P : A → Type κ) where
  All-insert_sorted : (x : A) (l : List A) → All P (insert_sorted less x l) ↔ (P x × All P l)
  unfolding insert_sorted
  All-insert_sorted x [] = ((λ h. h), (λ h. h))
  All-insert_sorted x (y ∷ l) = elim (Bool-cases (less y x)) [
    | inl e ↦
        let (f, g) = All-insert_sorted x l in
        rw (e, insert_sorted)
          ((λ (hy, h). ((f h).0, (hy, (f h).1))), (λ (hx, (hy, h)). (hy, g (hx, h))))
    | inr e ↦ rw (e, insert_sorted) ((λ h. h), (λ h. h))
  ]

  -- A sort changes nothing about what holds of all members.
  pub All-sort_stable : (l : List A) → All P (sort_stable less l) ↔ All P l
  unfolding sort_stable
  All-sort_stable [] = ((λ h. h), (λ h. h))
  All-sort_stable (x ∷ l) =
      let (f, g) = All-sort_stable l in
      let (f', g') = All-insert_sorted x (sort_stable less l) in
      ((λ h. ((f' h).0, f (f' h).1)), (λ (hx, h). g' (hx, g h)))

-- Sorting by what the elements stand for commutes with reading them.
module _ {ℓ κ} {A : Type ℓ} {B : Type κ} (less : B → B → Bool) (f : A → B) where
  map-insert_sorted :
      (x : A) (l : List A)
      → map f (insert_sorted (λ a b. less (f a) (f b)) x l) ≡ insert_sorted less (f x) (map f l)
  unfolding insert_sorted
  map-insert_sorted x [] = refl
  map-insert_sorted x (y ∷ ys) = elim (Bool-cases (less (f y) (f x))) [
    | inl e ↦ rw (e, insert_sorted) (rw (← map-insert_sorted x ys) refl)
    | inr e ↦ rw (e, insert_sorted) refl
  ]

  pub map-sort_stable :
      (l : List A) → map f (sort_stable (λ a b. less (f a) (f b)) l) ≡ sort_stable less (map f l)
  unfolding sort_stable
  map-sort_stable [] = refl
  map-sort_stable (x ∷ xs) =
      rw (← map-sort_stable xs) (map-insert_sorted x (sort_stable (λ a b. less (f a) (f b)) xs))
