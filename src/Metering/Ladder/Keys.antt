-- ===== src/Metering/Ladder/Keys.antt =====
-- The fields that no flush, reconciliation or reset of internal/metering/ladder.go changes: IDs
-- and what the deduction order looks at.
use mathlib.Core.Logic.Or
use mathlib.Core.List.{Mem, Pairwise-cons, mem-cons, mem-cons_self}
use lumi_panel.Base.{
  ◌≡◌, ◌≢◌, ◌∙◌, refl, sym, Bool-cases, inl, inr, arith, false, List, [], ◌∷◌, ℤ, ◌==ℤ◌, All,
}
use lumi_panel.Base.Sort.Laws.{IsSorted, sort_stable-IsSorted}
use lumi_panel.Time.{Instant}
use lumi_panel.Domain.Quota.{
  SubQuota, LedgerRow, less, sort_for_deduction, overflow_subscription_id,
}
use lumi_panel.Domain.Quota.Order.{less-IsWeakOrder}
use lumi_panel.Domain.Quota.Apply.{HasDistinctIds}
use lumi_panel.Metering.Ladder.{charge_row, charge_rows, change_first, dedup, prepare}

-- The deduction order, by recursion.
abbrev pub IsOrdered : List SubQuota → Type 0
IsOrdered [] = Unit
IsOrdered (s ∷ subs) = All (λ t. less t s ≡ false) subs × IsOrdered subs

All-of_Mem :
    (P : SubQuota → Type 0) (l : List SubQuota) → ((s : SubQuota) → Mem s l → P s) → All P l
All-of_Mem P [] h = tt
All-of_Mem P (s ∷ l) h = (h s mem-cons_self, All-of_Mem P l (λ t m. h t (mem-cons.1 (Or.inr m))))

IsOrdered-of_IsSorted : (l : List SubQuota) → IsSorted less l → IsOrdered l
IsOrdered-of_IsSorted [] s = tt
IsOrdered-of_IsSorted (x ∷ l) s =
    let (below, rest) = Pairwise-cons.0 s in
    (All-of_Mem (λ t. less t x ≡ false) l below, IsOrdered-of_IsSorted l rest)

pub prepare-IsOrdered : (subs : List SubQuota) → IsOrdered (prepare subs)
unfolding prepare sort_for_deduction
prepare-IsOrdered subs =
    IsOrdered-of_IsSorted _ (sort_stable-IsSorted less less-IsWeakOrder (dedup [] subs))

pub record SameKey (a b : SubQuota) : Type 0 where
  pub id : a.id ≡ b.id
  pub kind : a.kind ≡ b.kind
  pub expired_at : a.expired_at ≡ b.expired_at

abbrev pub SameKeys : List SubQuota → List SubQuota → Type 0
SameKeys [] [] = Unit
SameKeys (a ∷ xs) (b ∷ ys) = SameKey a b × SameKeys xs ys
SameKeys _ _ = ⊥

less-SameKey : {a b a' b' : SubQuota} → SameKey a a' → SameKey b b' → less a b ≡ less a' b'
unfolding less
less-SameKey p q = cc

SameKeys-refl : (l : List SubQuota) → SameKeys l l
SameKeys-refl [] = tt
SameKeys-refl (s ∷ l) = (record { id = refl; kind = refl; expired_at = refl }, SameKeys-refl l)

SameKeys-trans : (xs ys zs : List SubQuota) → SameKeys xs ys → SameKeys ys zs → SameKeys xs zs
SameKeys-trans [] [] [] p q = tt
SameKeys-trans [] [] (z ∷ zs) p q = absurd q
SameKeys-trans [] (y ∷ ys) zs p q = absurd p
SameKeys-trans (x ∷ xs) [] zs p q = absurd p
SameKeys-trans (x ∷ xs) (y ∷ ys) [] p q = absurd q
SameKeys-trans (x ∷ xs) (y ∷ ys) (z ∷ zs) (p, ps) (q, qs) = (
  record { id = p.id ∙ q.id; kind = p.kind ∙ q.kind; expired_at = p.expired_at ∙ q.expired_at },
  SameKeys-trans xs ys zs ps qs,
)

-- A property of the key alone moves along.
pub All-SameKeys :
    (P : SubQuota → Type 0) (Q : SubQuota → Type 0)
    → ((a b : SubQuota) → SameKey a b → P a → Q b)
    → (xs ys : List SubQuota) → SameKeys xs ys
    → All P xs
    → All Q ys
All-SameKeys P Q f [] [] k h = tt
All-SameKeys P Q f [] (y ∷ ys) k h = absurd k
All-SameKeys P Q f (x ∷ xs) [] k h = absurd k
All-SameKeys P Q f (x ∷ xs) (y ∷ ys) (k, ks) (h, hs) = (f x y k h, All-SameKeys P Q f xs ys ks hs)

pub SameKeys-IsOrdered : (xs ys : List SubQuota) → SameKeys xs ys → IsOrdered xs → IsOrdered ys
SameKeys-IsOrdered [] [] k h = tt
SameKeys-IsOrdered [] (y ∷ ys) k h = absurd k
SameKeys-IsOrdered (x ∷ xs) [] k h = absurd k
SameKeys-IsOrdered (x ∷ xs) (y ∷ ys) (k, ks) (h, hs) = (
  All-SameKeys (λ t. less t x ≡ false) (λ t. less t y ≡ false)
      (λ a b p below. sym (less-SameKey p k) ∙ below) xs ys ks h,
  SameKeys-IsOrdered xs ys ks hs,
)

pub SameKeys-HasDistinctIds :
    (xs ys : List SubQuota) → SameKeys xs ys → HasDistinctIds xs → HasDistinctIds ys
SameKeys-HasDistinctIds [] [] k h = tt
SameKeys-HasDistinctIds [] (y ∷ ys) k h = absurd k
SameKeys-HasDistinctIds (x ∷ xs) [] k h = absurd k
SameKeys-HasDistinctIds (x ∷ xs) (y ∷ ys) (k, ks) (h, hs) = (
  All-SameKeys (λ s. s.id ≢ x.id) (λ s. s.id ≢ y.id) (λ a b p ne e. ne (p.id ∙ e ∙ sym k.id)) xs ys
      ks h,
  SameKeys-HasDistinctIds xs ys ks hs,
)

charge_row-SameKeys :
    (bucket_at : Instant) (subs : List SubQuota) (r : LedgerRow)
    → SameKeys subs (charge_row bucket_at subs r)
unfolding charge_row
charge_row-SameKeys bucket_at [] r = tt
charge_row-SameKeys bucket_at (s ∷ subs) r =
    ground (arith, charge_row-SameKeys bucket_at subs r, SameKeys-refl subs)

pub charge_rows-SameKeys :
    (bucket_at : Instant) (subs : List SubQuota) (rows : List LedgerRow)
    → SameKeys subs (charge_rows bucket_at subs rows)
unfolding charge_rows
charge_rows-SameKeys bucket_at subs [] = SameKeys-refl subs
charge_rows-SameKeys bucket_at subs (r ∷ rows) =
    elim (Bool-cases (r.subscription_id ==ℤ overflow_subscription_id)) [
      | inl e ↦ rw (e, charge_rows) (charge_rows-SameKeys bucket_at subs rows)
      | inr e ↦
          rw (e, charge_rows)
            (SameKeys-trans subs (charge_row bucket_at subs r) _
              (charge_row-SameKeys bucket_at subs r)
              (charge_rows-SameKeys bucket_at (charge_row bucket_at subs r) rows))
    ]

pub change_first-SameKeys :
    (f : SubQuota → SubQuota)
    → ((s : SubQuota) → SameKey s (f s))
    → (id : ℤ) (subs : List SubQuota) → SameKeys subs (change_first f id subs).1
unfolding change_first
change_first-SameKeys f keeps id [] = tt
change_first-SameKeys f keeps id (s ∷ subs) =
    ground (arith, keeps s, change_first-SameKeys f keeps id subs, SameKeys-refl subs)
