-- ===== src/Domain/Quota/Attribution/Totals.antt =====
-- What the rows of `Attribute` add up to: in all, for each ID, and how many rows an ID has.
use Prim.Native.Nat.{min}
use lumi_panel.Base.{
  ℕ, ◌+◌, ◌-◌, ◌≤◌, ◌<◌, ◌^◌, ◌≡◌, arith, List, [], ◌∷◌, ℤ, pos, pos_part, neg_part, ◌==◌, ◌==ℤ◌,
  if◌then◌else◌, All, inl, inr, ◌<ℤ◌,
}
use lumi_panel.Base.Word.{add64-billed}
use lumi_panel.Time.{Instant}
use lumi_panel.Domain.Quota.{LedgerRow, SubQuota, overflow_subscription_id}
use lumi_panel.Domain.Quota.Attribution.Rows.{
  credit, capacity, attribute_rows, rows_skip, rows_last, rows_next, Stage-cases,
}

-- The amount billed to an ID, over all its rows.
unfoldable pub tally : ℤ → List LedgerRow → ℕ
tally k [] = 0
tally k (r ∷ rs) = (if r.subscription_id ==ℤ k then pos_part r.billed else 0) + tally k rs

unfoldable pub total : List LedgerRow → ℕ
total [] = 0
total (r ∷ rs) = pos_part r.billed + total rs

-- How many rows name an ID.
unfoldable pub rows_of : ℤ → List LedgerRow → ℕ
rows_of k [] = 0
rows_of k (r ∷ rs) = (if r.subscription_id ==ℤ k then 1 else 0) + rows_of k rs

abbrev pub IsBilled : LedgerRow → Type 0
IsBilled r = pos 0 <ℤ r.billed

-- The amounts in the rows, and room for one more.
pub record IsBooked (rows : List LedgerRow) (room : ℕ) : Type 0 where
  pub billed : All IsBilled rows
  pub fits : total rows + room < 2 ^ 63

module _ (id : ℤ) (t : ℕ) (h : 0 < t) where
  credit-IsBilled :
      (rows : List LedgerRow)
      → All IsBilled rows
      → total rows + t < 2 ^ 63
      → All IsBilled (credit id (pos t) rows) × (total (credit id (pos t) rows) ≡ total rows + t)
  unfolding credit total pos_part neg_part
  credit-IsBilled [] b f = ground arith
  credit-IsBilled (r ∷ rs) b f = ground (arith, credit-IsBilled rs, add64-billed r.billed t)

  tally-credit :
      (k : ℤ) (rows : List LedgerRow)
      → All IsBilled rows
      → total rows + t < 2 ^ 63
      → tally k (credit id (pos t) rows) ≡ (if id ==ℤ k then t else 0) + tally k rows
  unfolding credit tally total pos_part neg_part
  tally-credit k [] b f = ground arith
  tally-credit k (r ∷ rs) b f = ground (arith, tally-credit k rs, add64-billed r.billed t)

  rows_of-credit :
      (k : ℤ) (rows : List LedgerRow)
      → rows_of k (credit id (pos t) rows)
        ≡ (if id ==ℤ k then (if rows_of k rows == 0 then 1 else rows_of k rows) else rows_of k rows)
  unfolding credit rows_of
  rows_of-credit k [] = ground arith
  rows_of-credit k (r ∷ rs) = ground (arith, rows_of-credit k rs)

  credit-IsBooked :
      (rows : List LedgerRow) (rest : ℕ)
      → IsBooked rows (t + rest)
      → IsBooked (credit id (pos t) rows) rest
  credit-IsBooked rows rest b =
      let (billed, sum) = credit-IsBilled rows b.billed (omega (arith, b.fits)) in
      record { billed = billed; fits = omega (arith, b.fits, sum) }

  rows_of-credit-le :
      (k : ℤ) (rows : List LedgerRow) → rows_of k rows ≤ 1 → rows_of k (credit id (pos t) rows) ≤ 1
  rows_of-credit-le k rows h = ground (arith, rows_of-credit k rows)

-- The allowance in deduction order: how much of `n` each ID pays, and what is left overflows.
unfoldable pub drained : ℤ → List SubQuota → Instant → ℕ → ℕ
drained k [] at n = if overflow_subscription_id ==ℤ k then n else 0
drained k (s ∷ subs) at n =
    (if s.id ==ℤ k then min n (capacity at s) else 0) + drained k subs at (n - capacity at s)

pub drained-zero : (k : ℤ) (subs : List SubQuota) (at : Instant) → drained k subs at 0 ≡ 0
unfolding drained
drained-zero k [] at = ground arith
drained-zero k (s ∷ subs) at = ground (arith, drained-zero k subs at)

IsBooked-rest : {rows : List LedgerRow} {n m : ℕ} → IsBooked rows n → m ≤ n → IsBooked rows m
IsBooked-rest b h = record { billed = b.billed; fits = omega (arith, b.fits) }

module _ (at : Instant) where
  module _ (k : ℤ) (s : SubQuota) (subs : List SubQuota) (n : ℕ) (rows : List LedgerRow) where
    tally_skipped :
        capacity at s ≡ 0
        → tally k (attribute_rows subs at n rows) ≡ drained k subs at n + tally k rows
        → tally k (attribute_rows subs at n rows) ≡ drained k (s ∷ subs) at n + tally k rows
    unfolding drained
    tally_skipped none_left ih = ground arith

    tally_taken :
        0 < n
        → IsBooked rows n
        → n ≤ capacity at s
        → tally k (credit s.id (pos n) rows) ≡ drained k (s ∷ subs) at n + tally k rows
    unfolding drained
    tally_taken h b last =
        ground (arith, tally-credit s.id n h k rows b.billed b.fits, drained-zero k subs at)

    tally_passed :
        (left : ℕ)
        → IsBooked rows n
        → 0 < capacity at s
        → capacity at s < n
        → left
          ≡ drained k subs at (n - capacity at s) + tally k (credit s.id (pos (capacity at s)) rows)
        → left ≡ drained k (s ∷ subs) at n + tally k rows
    unfolding drained
    tally_passed left b p more ih =
        ground (arith, tally-credit s.id (capacity at s) p k rows b.billed)

  pub tally-attribute_rows :
      (k : ℤ) (subs : List SubQuota) (n : ℕ) (rows : List LedgerRow)
      → 0 < n
      → IsBooked rows n
      → tally k (attribute_rows subs at n rows) ≡ drained k subs at n + tally k rows
  unfolding attribute_rows
  tally-attribute_rows k [] n rows h b =
      unfold drained in tally-credit overflow_subscription_id n h k rows b.billed b.fits
  tally-attribute_rows k (s ∷ subs) n rows h b =
      let c = capacity at s in
      elim (Stage-cases c n) [
        | inl none_left ↦
            rw (rows_skip s subs at n rows none_left)
              (tally_skipped k s subs n rows none_left (tally-attribute_rows k subs n rows h b))
        | inr (inl (p, last)) ↦
            rw (rows_last s subs at n rows p last) (tally_taken k s subs n rows h b last)
        | inr (inr (p, more)) ↦
            let b' = credit-IsBooked s.id c p rows (n - c) (IsBooked-rest b (omega arith)) in
            rw (rows_next s subs at n rows p more) (
              tally_passed k s subs n rows _ b p more
                (tally-attribute_rows k subs (n - c) (credit s.id (pos c) rows) (omega arith) b'))
      ]

  pub total-attribute_rows :
      (subs : List SubQuota) (n : ℕ) (rows : List LedgerRow)
      → 0 < n
      → IsBooked rows n
      → All IsBilled (attribute_rows subs at n rows)
        × (total (attribute_rows subs at n rows) ≡ total rows + n)
  unfolding attribute_rows
  total-attribute_rows [] n rows h b =
      credit-IsBilled overflow_subscription_id n h rows b.billed b.fits
  total-attribute_rows (s ∷ subs) n rows h b =
      let c = capacity at s in
      elim (Stage-cases c n) [
        | inl none_left ↦
            rw (rows_skip s subs at n rows none_left) (total-attribute_rows subs n rows h b)
        | inr (inl (p, last)) ↦
            rw (rows_last s subs at n rows p last) (credit-IsBilled s.id n h rows b.billed b.fits)
        | inr (inr (p, more)) ↦
            let b' = credit-IsBooked s.id c p rows (n - c) (IsBooked-rest b (omega arith)) in
            let (_, sum) = credit-IsBilled s.id c p rows b.billed (omega (arith, b.fits)) in
            let (billed, all) =
              total-attribute_rows subs (n - c) (credit s.id (pos c) rows) (omega arith) b' in
            rw (rows_next s subs at n rows p more) (billed, omega arith)
      ]

  pub rows_of-attribute_rows :
      (k : ℤ) (subs : List SubQuota) (n : ℕ) (rows : List LedgerRow)
      → 0 < n
      → rows_of k rows ≤ 1
      → rows_of k (attribute_rows subs at n rows) ≤ 1
  unfolding attribute_rows
  rows_of-attribute_rows k [] n rows h b = rows_of-credit-le overflow_subscription_id n h k rows b
  rows_of-attribute_rows k (s ∷ subs) n rows h b =
      let c = capacity at s in
      ground (
        arith,
        rows_of-credit-le s.id n h k rows b,
        rows_of-attribute_rows k subs n rows h b,
        λ (p : 0 < c). λ (q : 0 < n - c).
            rows_of-attribute_rows k subs (n - c) (credit s.id (pos c) rows) q
              (rows_of-credit-le s.id c p k rows b),
      )
