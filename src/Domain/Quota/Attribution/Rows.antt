-- ===== src/Domain/Quota/Attribution/Rows.antt =====
-- The closure `add`: with its index map in step it credits the one row of the ID.
use mathlib.Core.Option
use native.Mathlib.Decide.{dec_lt}
use lumi_panel.Base.{
  ℕ, zero, suc, ◌≤◌, ◌<◌, ◌^◌, ◌≡◌, ◌⊎◌, refl, arith, true, Option-cases, inl, inr, Option, none,
  some, List, [], ◌∷◌, ◌++◌, ℤ, pos, pos_part, neg_part, ℤ-cases, ◌-◌, leb, ◌==◌, ◌==ℤ◌, length,
  if◌then◌else◌,
}
use lumi_panel.Base.Word.{add64, sub64-pos}
use lumi_panel.Base.Assoc.{lookup, lookup-insert}
use lumi_panel.Time.{Instant}
use lumi_panel.Domain.Quota.{
  LedgerRow, Rows, add_at, add, SubQuota, available, active_at, attribute_from,
  overflow_subscription_id,
}

abbrev pub row : ℤ → ℤ → LedgerRow
row id amount = record { subscription_id = id; billed = amount }

-- The row of the ID takes the amount, and a new row is appended if there is none.
unfoldable pub credit : ℤ → ℤ → List LedgerRow → List LedgerRow
credit id amount [] = row id amount ∷ []
credit id amount (r ∷ rs) =
    if r.subscription_id ==ℤ id
    then record r { billed = add64 r.billed amount } ∷ rs
    else r ∷ credit id amount rs

-- The position of the first row of an ID.
unfoldable pub find_row : ℤ → List LedgerRow → Option ℕ
find_row id [] = none
find_row id (r ∷ rs) = if r.subscription_id ==ℤ id then some 0 else Option.map suc (find_row id rs)

-- The index map knows the position of each row.
abbrev pub IsIndexed : Rows → Type 0
IsIndexed w = (k : ℤ) → lookup k w.index ≡ find_row k w.rows

credit-none :
    (id amount : ℤ) (rows : List LedgerRow)
    → find_row id rows ≡ none
    → credit id amount rows ≡ rows ++ row id amount ∷ []
unfolding credit find_row
credit-none id amount [] h = refl
credit-none id amount (r ∷ rs) h = ground (arith, credit-none id amount rs)

credit-some :
    (id amount : ℤ) (rows : List LedgerRow) (i : ℕ)
    → find_row id rows ≡ some i
    → credit id amount rows ≡ add_at rows i amount
unfolding credit find_row add_at
credit-some id amount [] i h = cc
credit-some id amount (r ∷ rs) zero h = ground arith
credit-some id amount (r ∷ rs) (suc i) h = ground (arith, credit-some id amount rs i)

find_row-append :
    (k id amount : ℤ) (rows : List LedgerRow)
    → find_row id rows ≡ none
    → find_row k (rows ++ row id amount ∷ [])
      ≡ (if id ==ℤ k then some (length rows) else find_row k rows)
unfolding find_row
find_row-append k id amount [] h = ground arith
find_row-append k id amount (r ∷ rs) h = ground (arith, find_row-append k id amount rs)

find_row-add_at :
    (k amount : ℤ) (rows : List LedgerRow) (i : ℕ)
    → find_row k (add_at rows i amount) ≡ find_row k rows
unfolding find_row add_at
find_row-add_at k amount [] i = refl
find_row-add_at k amount (r ∷ rs) zero = refl
find_row-add_at k amount (r ∷ rs) (suc i) = ground (arith, find_row-add_at k amount rs i)

pub add_lem :
    (id amount : ℤ) (w : Rows)
    → IsIndexed w
    → ((add id amount w).rows ≡ credit id amount w.rows) × IsIndexed (add id amount w)
unfolding add
add_lem id amount w ok = elim (Option-cases (find_row id w.rows)) [
  | inl e ↦ (
    ground (arith, ok id, credit-none id amount w.rows),
    λ k. ground (
      arith,
      ok id,
      ok k,
      lookup-insert id k (length w.rows) w.index,
      find_row-append k id amount w.rows,
    ),
  )
  | inr (i, e) ↦ (
    ground (arith, ok id, credit-some id amount w.rows i),
    λ k. ground (arith, ok id, ok k, find_row-add_at k amount w.rows i),
  )
]

-- What a subscription can still absorb at an instant.
unfoldable pub capacity : Instant → SubQuota → ℕ
unfolding pos_part
capacity at s = if active_at s at then pos_part (available s) else 0

-- The loop of `Attribute` over its rows alone.
unfoldable pub attribute_rows : List SubQuota → Instant → ℕ → List LedgerRow → List LedgerRow
unfolding credit capacity
attribute_rows [] at n rows = credit overflow_subscription_id (pos n) rows
attribute_rows (s ∷ subs) at n rows =
    let c = capacity at s in
    let skip = attribute_rows subs at n rows in
    let rest = attribute_rows subs at (n - c) (credit s.id (pos c) rows) in
    if c == 0 then skip else if leb n c then credit s.id (pos n) rows else rest

-- A subscription with no capacity is passed over.
step_skip :
    (s : SubQuota) (subs : List SubQuota) (at : Instant) (n : ℕ) (w : Rows)
    → capacity at s ≡ 0
    → attribute_from (s ∷ subs) at (pos n) w ≡ attribute_from subs at (pos n) w
unfolding attribute_from capacity
step_skip s subs at n w h = ground arith

-- One with capacity is active, and its capacity is what is available.
capacity-available :
    (s : SubQuota) (at : Instant)
    → 0 < capacity at s
    → (active_at s at ≡ true) × (available s ≡ pos (capacity at s))
unfolding capacity pos_part
capacity-available s at h = elim (ℤ-cases (available s)) [
  | inl (c, e) ↦ ground arith
  | inr (c, e) ↦ ground arith
]

step_last :
    (s : SubQuota) (subs : List SubQuota) (at : Instant) (n c : ℕ) (w : Rows)
    → active_at s at ≡ true
    → available s ≡ pos c
    → 0 < c
    → n < 2 ^ 63
    → n ≤ c
    → attribute_from (s ∷ subs) at (pos n) w ≡ (add s.id (pos n) w).rows
unfolding attribute_from pos_part neg_part
step_last s subs at n c w live e h k le = ground (arith, sub64-pos n n, sub64-pos n c)

step_next :
    (s : SubQuota) (subs : List SubQuota) (at : Instant) (n c : ℕ) (w : Rows)
    → active_at s at ≡ true
    → available s ≡ pos c
    → 0 < c
    → n < 2 ^ 63
    → c < n
    → attribute_from (s ∷ subs) at (pos n) w
      ≡ attribute_from subs at (pos (n - c)) (add s.id (pos c) w)
unfolding attribute_from pos_part neg_part
step_next s subs at n c w live e h k lt = ground (arith, sub64-pos n c)

module _ (s : SubQuota) (subs : List SubQuota) (at : Instant) (n : ℕ) (rows : List LedgerRow) where
  pub rows_skip :
      capacity at s ≡ 0 → attribute_rows (s ∷ subs) at n rows ≡ attribute_rows subs at n rows
  unfolding attribute_rows
  rows_skip h = ground arith

  pub rows_last :
      0 < capacity at s
      → n ≤ capacity at s
      → attribute_rows (s ∷ subs) at n rows ≡ credit s.id (pos n) rows
  unfolding attribute_rows
  rows_last h k = ground arith

  pub rows_next :
      0 < capacity at s
      → capacity at s < n
      → attribute_rows (s ∷ subs) at n rows
        ≡ attribute_rows subs at (n - capacity at s) (credit s.id (pos (capacity at s)) rows)
  unfolding attribute_rows
  rows_next h k = ground arith

-- Where the loop stands at a subscription with capacity `c`.
pub Stage-cases : (c n : ℕ) → (c ≡ 0) ⊎ ((0 < c) × (n ≤ c)) ⊎ ((0 < c) × (c < n))
Stage-cases c n = omega arith

-- The loop with its index map computes what the loop over the rows does.
pub attribute_from-rows :
    (subs : List SubQuota) (at : Instant) (n : ℕ) (w : Rows)
    → n < 2 ^ 63
    → IsIndexed w
    → attribute_from subs at (pos n) w ≡ attribute_rows subs at n w.rows
unfolding attribute_rows
attribute_from-rows [] at n w k ok =
    unfold attribute_from in (add_lem overflow_subscription_id (pos n) w ok).0
attribute_from-rows (s ∷ subs) at n w k ok =
    let c = capacity at s in
    let (credited, ok') = add_lem s.id (pos c) w ok in
    let skipped = attribute_from-rows subs at n w k ok in
    let rest = attribute_from-rows subs at (n - c) (add s.id (pos c) w) (omega arith) ok' in
    elim (dec_lt 0 c) [
      | no p ↦ ground (arith, step_skip s subs at n w)
      | yes p ↦
          let (live, e) = capacity-available s at p in
          ground (
            arith,
            step_last s subs at n c w live e p k,
            step_next s subs at n c w live e p k,
            add_lem s.id (pos n) w ok,
          )
    ]
