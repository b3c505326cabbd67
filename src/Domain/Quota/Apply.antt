-- ===== src/Domain/Quota/Apply.antt =====
-- Paying attributed rows into the counters: `ApplyAttribution` of internal/domain/quota.go, and
-- the same loop under a test of the period, as the ladder of internal/metering runs it.
use mathlib.Core.Bool.{false≢true}
use lumi_panel.Base.{
  ℕ, ◌+◌, ◌≡◌, ◌≢◌, refl, sym, arith, Bool, true, false, not, ◌&&◌, Option, List, [], ◌∷◌, map, ℤ,
  pos, ◌+ℤ◌, ◌==ℤ◌, ==ℤ_iff, pos_part, if◌then◌else◌, All, eq_of_parts, parts_exclusive, int_laws,
  ◌∙◌, Bool-cases, inl, inr,
}
use lumi_panel.Base.Word.{add64, add64_assoc, add64-zero, add64-IsInt64, IsInt64}
use lumi_panel.Time.{Instant}
use lumi_panel.Domain.Quota.{
  SubQuota, LedgerRow, overflow_subscription_id, deduct_first, apply_attribution,
}
use lumi_panel.Domain.Quota.Attribution.{tally, IsBilled}
use lumi_panel.Domain.Quota.Shares.{Lacks}

-- No two entries share an ID.
abbrev pub HasDistinctIds : List SubQuota → Type 0
HasDistinctIds [] = Unit
HasDistinctIds (s ∷ subs) = Lacks s.id subs × HasDistinctIds subs

-- The counters are int64 values.
abbrev pub HasCounters : List SubQuota → Type 0
HasCounters = All (λ s. IsInt64 s.used_bytes)

billed-add : (r : LedgerRow) (t : ℕ) → IsBilled r → r.billed +ℤ pos t ≡ pos (pos_part r.billed + t)
billed-add r t b = eq_of_parts _ _ (omega (int_laws, parts_exclusive r.billed))

module _ (counts : Option Instant → Bool) where
  -- The first subscription with the ID of the row takes its amount, if the row counts.
  unfoldable pub pay_first : List SubQuota → LedgerRow → List SubQuota
  pay_first [] r = []
  pay_first (s ∷ subs) r =
      if s.id ==ℤ r.subscription_id
      then (if counts s.last_reset_at
          then record s { used_bytes = add64 s.used_bytes r.billed }
          else s)
        ∷ subs
      else s ∷ pay_first subs r

  unfoldable pub pay_rows : List SubQuota → List LedgerRow → List SubQuota
  unfolding pay_first
  pay_rows subs [] = subs
  pay_rows subs (r ∷ rows) =
      pay_rows (if r.subscription_id ==ℤ overflow_subscription_id then subs else pay_first subs r)
        rows

  -- What all rows together do to one subscription.
  unfoldable pub settle : List LedgerRow → SubQuota → SubQuota
  settle rows s =
      if not (s.id ==ℤ overflow_subscription_id) && counts s.last_reset_at
      then record s { used_bytes = add64 s.used_bytes (pos (tally s.id rows)) }
      else s

  settle-nil : (s : SubQuota) → IsInt64 s.used_bytes → settle [] s ≡ s
  unfolding settle tally
  settle-nil s h = ground (arith, add64-zero s.used_bytes h)

  settle-absent :
      (s : SubQuota) (r : LedgerRow) (rows : List LedgerRow)
      → s.id ≢ r.subscription_id
      → settle (r ∷ rows) s ≡ settle rows s
  unfolding settle tally
  settle-absent s r rows h = ground (arith, ==ℤ_iff r.subscription_id s.id)

  settle-overflow :
      (s : SubQuota) (r : LedgerRow) (rows : List LedgerRow)
      → r.subscription_id ≡ overflow_subscription_id
      → settle (r ∷ rows) s ≡ settle rows s
  unfolding settle tally
  settle-overflow s r rows h =
      ground (arith, ==ℤ_iff r.subscription_id s.id, ==ℤ_iff s.id overflow_subscription_id)

  settle-paid :
      (s : SubQuota) (r : LedgerRow) (rows : List LedgerRow)
      → s.id ≡ r.subscription_id
      → (r.subscription_id ==ℤ overflow_subscription_id) ≡ false
      → IsBilled r
      → settle rows (
          if counts s.last_reset_at
          then record s { used_bytes = add64 s.used_bytes r.billed }
          else s)
        ≡ settle (r ∷ rows) s
  unfolding settle tally
  settle-paid s r rows e owned b =
      let sum : r.billed +ℤ pos (tally s.id rows) ≡ pos (pos_part r.billed + tally s.id rows) =
        billed-add r (tally s.id rows) b in
      elim (Bool-cases (counts s.last_reset_at)) [
        | inl yes_counts ↦
            rw (yes_counts, add64_assoc, sum) (ground (arith, ==ℤ_iff r.subscription_id s.id))
        | inr not_counts ↦ ground arith
      ]

  map-absent :
      (r : LedgerRow) (rows : List LedgerRow) (subs : List SubQuota)
      → Lacks r.subscription_id subs
      → map (settle rows) subs ≡ map (settle (r ∷ rows)) subs
  map-absent r rows [] l = refl
  map-absent r rows (s ∷ subs) (l, ls) = cc (settle-absent s r rows l, map-absent r rows subs ls)

  map-overflow :
      (r : LedgerRow) (rows : List LedgerRow) (subs : List SubQuota)
      → r.subscription_id ≡ overflow_subscription_id
      → map (settle rows) subs ≡ map (settle (r ∷ rows)) subs
  map-overflow r rows [] e = refl
  map-overflow r rows (s ∷ subs) e = cc (settle-overflow s r rows e, map-overflow r rows subs e)

  map-pay_first :
      (r : LedgerRow) (rows : List LedgerRow) (subs : List SubQuota)
      → HasDistinctIds subs
      → (r.subscription_id ==ℤ overflow_subscription_id) ≡ false
      → IsBilled r
      → map (settle rows) (pay_first subs r) ≡ map (settle (r ∷ rows)) subs
  unfolding pay_first
  map-pay_first r rows [] d owned b = refl
  map-pay_first r rows (s ∷ subs) (l, d) owned b = elim (Bool-cases (s.id ==ℤ r.subscription_id)) [
    | inl e ↦
        let same = (==ℤ_iff s.id r.subscription_id).0 e in
        rw (e, pay_first)
          (cc (settle-paid s r rows same owned b, map-absent r rows subs (rw same at l)))
    | inr e ↦
        rw (e, pay_first)
          (cc (
            settle-absent s r rows
                (λ q. absurd (false≢true (sym e ∙ (==ℤ_iff s.id r.subscription_id).1 q))),
            map-pay_first r rows subs d owned b,
          ))
  ]

  Lacks-pay_first :
      (k : ℤ) (r : LedgerRow) (subs : List SubQuota) → Lacks k subs → Lacks k (pay_first subs r)
  unfolding pay_first
  Lacks-pay_first k r [] l = tt
  Lacks-pay_first k r (s ∷ subs) (l, ls) = ground (arith, Lacks-pay_first k r subs ls)

  pay_first-HasDistinctIds :
      (r : LedgerRow) (subs : List SubQuota)
      → HasDistinctIds subs
      → HasDistinctIds (pay_first subs r)
  unfolding pay_first
  pay_first-HasDistinctIds r [] d = tt
  pay_first-HasDistinctIds r (s ∷ subs) (l, d) =
      ground (arith, pay_first-HasDistinctIds r subs d, Lacks-pay_first s.id r subs l)

  pay_first-HasCounters :
      (r : LedgerRow) (subs : List SubQuota) → HasCounters subs → HasCounters (pay_first subs r)
  unfolding pay_first
  pay_first-HasCounters r [] c = tt
  pay_first-HasCounters r (s ∷ subs) (c, cs) =
      ground (arith, pay_first-HasCounters r subs cs, add64-IsInt64 s.used_bytes r.billed)

  map-settle-nil : (subs : List SubQuota) → HasCounters subs → map (settle []) subs ≡ subs
  map-settle-nil [] c = refl
  map-settle-nil (s ∷ subs) (c, cs) = cc (settle-nil s c, map-settle-nil subs cs)

  -- Paying the rows one after another settles each subscription by its own total.
  pub pay_rows-settle :
      (rows : List LedgerRow) (subs : List SubQuota)
      → HasDistinctIds subs
      → HasCounters subs
      → All IsBilled rows
      → pay_rows subs rows ≡ map (settle rows) subs
  unfolding pay_rows
  pay_rows-settle [] subs d c b = sym (map-settle-nil subs c)
  pay_rows-settle (r ∷ rows) subs d c (b, bs) =
      elim (Bool-cases (r.subscription_id ==ℤ overflow_subscription_id)) [
        | inl e ↦
            let same = (==ℤ_iff r.subscription_id overflow_subscription_id).0 e in
            rw (e, pay_rows) (pay_rows-settle rows subs d c bs ∙ map-overflow r rows subs same)
        | inr e ↦
            rw (e, pay_rows)
              (pay_rows-settle rows (pay_first subs r) (pay_first-HasDistinctIds r subs d)
                  (pay_first-HasCounters r subs c) bs
                ∙ map-pay_first r rows subs d e b)
      ]

deduct_first-pay_first :
    (subs : List SubQuota) (r : LedgerRow) → deduct_first subs r ≡ pay_first (λ _. true) subs r
unfolding deduct_first pay_first
deduct_first-pay_first [] r = refl
deduct_first-pay_first (s ∷ subs) r = rw (deduct_first-pay_first subs r)

apply_attribution-pay_rows :
    (rows : List LedgerRow) (subs : List SubQuota)
    → apply_attribution subs rows ≡ pay_rows (λ _. true) subs rows
unfolding apply_attribution pay_rows
apply_attribution-pay_rows [] subs = refl
apply_attribution-pay_rows (r ∷ rows) subs =
    rw (deduct_first-pay_first subs r) (apply_attribution-pay_rows rows _)

-- On subscriptions with distinct IDs and int64 counters, paying a list of positive rows adds to the
-- counter of each the total of the rows with its ID, with the wrap-around of int64, and leaves a
-- subscription with ID 0 and all other fields alone.
pub apply_attribution_lem :
    (rows : List LedgerRow) (subs : List SubQuota)
    → HasDistinctIds subs
    → HasCounters subs
    → All IsBilled rows
    → apply_attribution subs rows ≡ map (settle (λ _. true) rows) subs
apply_attribution_lem rows subs d c b =
    apply_attribution-pay_rows rows subs ∙ pay_rows-settle (λ _. true) rows subs d c b
