-- ===== src/Metering/Ladder/Charge.antt =====
-- The deduction inside `Attribute` of internal/metering/ladder.go: what one flush does to the
-- counters of a user's subscriptions.
use lumi_panel.Base.{
  ℕ, ◌+◌, ◌-◌, ◌≤◌, ◌<◌, ◌^◌, ◌≡◌, ◌≢◌, ◌∙◌, refl, arith, Bool, Bool-cases, inl, inr, Option, List,
  [], ◌∷◌, map, ℤ, pos, ◌≤ℤ◌, ◌==ℤ◌, ==ℤ_iff, pos_part, All, All-both, All-map, All-imp, int_laws,
  parts_exclusive, not, ◌&&◌,
}
use lumi_panel.Base.Word.{IsInt64, add64-nonneg}
use lumi_panel.Time.{Instant}
use lumi_panel.Domain.Quota.{SubQuota, LedgerRow, overflow_subscription_id}
use lumi_panel.Domain.Quota
use lumi_panel.Domain.Quota.Attribution.{
  capacity, tally, drained, IsBilled, attribute-drained, attribute_conserves,
}
use lumi_panel.Domain.Quota.Shares.{Lacks, drained-absent}
use lumi_panel.Domain.Quota.Apply.{
  HasDistinctIds, HasCounters, pay_first, pay_rows, settle, pay_rows-settle,
}
use lumi_panel.Domain.Reset.{counts_toward_current_period}
use lumi_panel.Domain.Reset.Laws.{IsCounted, available-pos, nonneg-parts}
use lumi_panel.Metering.Ladder.{charge_row, charge_rows}

charge_row-pay_first :
    (bucket_at : Instant) (subs : List SubQuota) (r : LedgerRow)
    → charge_row bucket_at subs r ≡ pay_first (counts_toward_current_period bucket_at) subs r
unfolding charge_row pay_first
charge_row-pay_first bucket_at [] r = refl
charge_row-pay_first bucket_at (s ∷ subs) r = rw (charge_row-pay_first bucket_at subs r)

charge_rows-pay_rows :
    (bucket_at : Instant) (rows : List LedgerRow) (subs : List SubQuota)
    → charge_rows bucket_at subs rows ≡ pay_rows (counts_toward_current_period bucket_at) subs rows
unfolding charge_rows pay_rows
charge_rows-pay_rows bucket_at [] subs = refl
charge_rows-pay_rows bucket_at (r ∷ rows) subs =
    rw (charge_row-pay_first bucket_at subs r) (charge_rows-pay_rows bucket_at rows _)

-- The rows of a flush settle each subscription whose period the bucket counts toward.
pub charge_rows-settle :
    (bucket_at : Instant) (rows : List LedgerRow) (subs : List SubQuota)
    → HasDistinctIds subs
    → HasCounters subs
    → All IsBilled rows
    → charge_rows bucket_at subs rows
      ≡ map (settle (counts_toward_current_period bucket_at) rows) subs
charge_rows-settle bucket_at rows subs d c b =
    charge_rows-pay_rows bucket_at rows subs
    ∙ pay_rows-settle (counts_toward_current_period bucket_at) rows subs d c b

-- The counter is within the allowance, and both are int64 values that are not negative.
pub record IsWithin (s : SubQuota) : Type 0 where
  pub counted : IsCounted s
  pub within : s.used_bytes ≤ℤ s.transfer_bytes

-- No subscription stands for the overflow.
abbrev pub HasOwners : List SubQuota → Type 0
HasOwners = Lacks overflow_subscription_id

-- Each subscription drains within its capacity.
abbrev pub Drains : Instant → ℕ → List SubQuota → SubQuota → Type 0
Drains at n subs s = drained s.id subs at n ≤ capacity at s

pub drained-le-capacity :
    (at : Instant) (subs : List SubQuota) (n : ℕ)
    → HasOwners subs
    → HasDistinctIds subs
    → All (Drains at n subs) subs
drained-le-capacity at [] n o d = tt
drained-le-capacity at (x ∷ subs) n (o, os) (l, d) = (
  unfold drained in
      ground (arith, drained-absent x.id subs at (n - capacity at x) o l, ==ℤ_iff x.id x.id),
  All-both (λ s. s.id ≢ x.id) (Drains at (n - capacity at x) subs) (Drains at n (x ∷ subs))
      (λ s ne h. unfold drained in ground (arith, ==ℤ_iff x.id s.id)) subs l
      (drained-le-capacity at subs (n - capacity at x) os d),
)

pub capacity-le :
    (at : Instant) (s : SubQuota)
    → IsCounted s
    → capacity at s ≤ pos_part s.transfer_bytes - pos_part s.used_bytes
unfolding capacity
capacity-le at s h = ground (arith, available-pos s h)

pub room_below : (s : SubQuota) → IsWithin s → pos_part s.used_bytes ≤ pos_part s.transfer_bytes
room_below s h = omega (
  arith,
  h.within,
  nonneg-parts s.used_bytes h.counted.used_nonneg,
  parts_exclusive s.transfer_bytes,
)

-- A counter that stays within the allowance.
grown-IsWithin :
    (s : SubQuota) (t : ℕ)
    → IsWithin s
    → t ≤ pos_part s.transfer_bytes - pos_part s.used_bytes
    → IsWithin (record s { used_bytes = pos (pos_part s.used_bytes + t) })
grown-IsWithin s t h k =
    let room = room_below s h in
    let top = h.counted.transfer_fits.below in
    record {
      counted = record {
        transfer_fits = h.counted.transfer_fits;
        used_fits = record { below = omega int_laws; above = omega int_laws };
        used_nonneg = omega int_laws;
      };
      within = omega (
        int_laws,
        h.within,
        nonneg-parts s.used_bytes h.counted.used_nonneg,
        parts_exclusive s.transfer_bytes,
      );
    }

settle-IsWithin :
    (counts : Option Instant → Bool) (rows : List LedgerRow) (s : SubQuota)
    → IsWithin s
    → tally s.id rows ≤ pos_part s.transfer_bytes - pos_part s.used_bytes
    → IsWithin (settle counts rows s)
unfolding settle
settle-IsWithin counts rows s h t =
    let grown = grown-IsWithin s (tally s.id rows) h t in
    let exact =
      add64-nonneg s.used_bytes (tally s.id rows) h.counted.used_nonneg
        (omega (arith, h.counted.transfer_fits.below, room_below s h)) in
    elim (Bool-cases (not (s.id ==ℤ overflow_subscription_id) && counts s.last_reset_at)) [
      | inl pays ↦ rw (pays, exact) grown
      | inr not_pays ↦ rw not_pays h
    ]

-- A flush never drains a subscription past its allowance.
pub charge_rows-IsWithin :
    (billed : ℤ) (bucket_at : Instant) (subs : List SubQuota)
    → pos_part billed < 2 ^ 63
    → HasOwners subs
    → HasDistinctIds subs
    → All IsWithin subs
    → All IsWithin (charge_rows bucket_at subs (Quota.attribute billed subs bucket_at))
charge_rows-IsWithin billed bucket_at subs fits o d w =
    let rows = Quota.attribute billed subs bucket_at in
    let (_, positive, _) = attribute_conserves billed subs bucket_at fits in
    let counters =
      All-imp IsWithin (λ s. IsInt64 s.used_bytes) (λ s h. h.counted.used_fits) subs w in
    let drains = drained-le-capacity bucket_at subs (pos_part billed) o d in
    rw (charge_rows-settle bucket_at rows subs d counters positive) (
      All-map (λ s. IsWithin s × Drains bucket_at (pos_part billed) subs s) IsWithin
        (settle (counts_toward_current_period bucket_at) rows)
        (λ s h. settle-IsWithin (counts_toward_current_period bucket_at) rows s h.0 (
          omega (
            arith,
            h.1,
            attribute-drained s.id billed subs bucket_at fits,
            capacity-le bucket_at s h.0.counted,
          )))
        subs
        (All-both IsWithin (Drains bucket_at (pos_part billed) subs)
          (λ s. IsWithin s × Drains bucket_at (pos_part billed) subs s) (λ s h k. (h, k)) subs w
          drains))
