-- ===== src/Metering/Ladder/Conserve.antt =====
-- Conservation in a flush of internal/metering/ladder.go: what the counters gain and what
-- overflows make up the billed amount.
use lumi_panel.Base.{
  ℕ, ◌+◌, ◌-◌, ◌≤◌, ◌<◌, ◌^◌, ◌≡◌, ◌≢◌, refl, arith, Bool, true, Option, List, [], ◌∷◌, map, ℤ,
  ==ℤ_iff, pos_part, pos_part-pos, All, All-imp,
}
use lumi_panel.Base.Word.{IsInt64, add64-nonneg}
use lumi_panel.Time.{Instant}
use lumi_panel.Domain.Quota.{SubQuota, LedgerRow, overflow_subscription_id}
use lumi_panel.Domain.Quota
use lumi_panel.Domain.Quota.Attribution.{
  capacity, tally, drained, attribute-drained, attribute_conserves,
}
use lumi_panel.Domain.Quota.Shares.{Lacks, drained-absent}
use lumi_panel.Domain.Quota.Apply.{HasDistinctIds, settle}
use lumi_panel.Domain.Reset.{counts_toward_current_period}
use lumi_panel.Metering.Ladder.{charge_rows}
use lumi_panel.Metering.Ladder.Charge.{
  HasOwners, IsWithin, Drains, room_below, capacity-le, drained-le-capacity, charge_rows-settle,
}

unfoldable pub used_total : List SubQuota → ℕ
used_total [] = 0
used_total (s ∷ subs) = pos_part s.used_bytes + used_total subs

-- What the IDs of a list drain together.
unfoldable drained_total : List SubQuota → List SubQuota → Instant → ℕ → ℕ
drained_total [] subs at n = 0
drained_total (s ∷ ss) subs at n = drained s.id subs at n + drained_total ss subs at n

drained_total-cons :
    (ss subs : List SubQuota) (x : SubQuota) (at : Instant) (n : ℕ)
    → Lacks x.id ss
    → drained_total ss (x ∷ subs) at n ≡ drained_total ss subs at (n - capacity at x)
unfolding drained_total drained
drained_total-cons [] subs x at n l = refl
drained_total-cons (s ∷ ss) subs x at n (l, ls) =
    ground (arith, drained_total-cons ss subs x at n ls, ==ℤ_iff x.id s.id)

-- The shares of all subscriptions and the overflow make up the amount.
drained_total-all :
    (subs : List SubQuota) (at : Instant) (n : ℕ)
    → HasOwners subs
    → HasDistinctIds subs
    → drained_total subs subs at n + drained overflow_subscription_id subs at n ≡ n
unfolding drained_total drained
drained_total-all [] at n o d = ground arith
drained_total-all (x ∷ subs) at n (o, os) (l, d) =
    let rest = drained_total-all subs at (n - capacity at x) os d in
    let own = drained-absent x.id subs at (n - capacity at x) o l in
    rw (drained_total-cons subs subs x at n l)
      (ground (arith, rest, own, ==ℤ_iff x.id x.id, ==ℤ_iff x.id overflow_subscription_id))

-- The bucket counts toward the current period of each subscription.
abbrev pub AllCount : Instant → List SubQuota → Type 0
AllCount bucket_at = All (λ s. counts_toward_current_period bucket_at s.last_reset_at ≡ true)

used-settle :
    (counts : Option Instant → Bool) (rows : List LedgerRow) (s : SubQuota)
    → IsWithin s
    → s.id ≢ overflow_subscription_id
    → counts s.last_reset_at ≡ true
    → tally s.id rows ≤ pos_part s.transfer_bytes - pos_part s.used_bytes
    → pos_part (settle counts rows s).used_bytes ≡ pos_part s.used_bytes + tally s.id rows
unfolding settle
used-settle counts rows s h o c t = ground (
  arith,
  ==ℤ_iff s.id overflow_subscription_id,
  add64-nonneg s.used_bytes (tally s.id rows) h.counted.used_nonneg,
  room_below s h,
  h.counted.transfer_fits.below,
  pos_part-pos (pos_part s.used_bytes + tally s.id rows),
)

used_total-settle :
    (counts : Option Instant → Bool) (rows : List LedgerRow) (subs all : List SubQuota)
    (at : Instant) (n : ℕ)
    → ((k : ℤ) → tally k rows ≡ drained k all at n)
    → All IsWithin subs
    → HasOwners subs
    → All (λ s. counts s.last_reset_at ≡ true) subs
    → All (Drains at n all) subs
    → used_total (map (settle counts rows) subs) ≡ used_total subs + drained_total subs all at n
unfolding used_total drained_total
used_total-settle counts rows [] all at n t w o c d = omega arith
used_total-settle counts rows (s ∷ subs) all at n t (w, ws) (o, os) (c, cs) (d, ds) = omega (
  arith,
  used_total-settle counts rows subs all at n t ws os cs ds,
  t s.id,
  used-settle counts rows s w o c (omega (arith, t s.id, capacity-le at s w.counted)),
)

-- What a flush adds to the counters and what overflows make up the billed amount, if the bucket
-- counts toward every current period.
pub charge_rows_conserves :
    (billed : ℤ) (bucket_at : Instant) (subs : List SubQuota)
    → pos_part billed < 2 ^ 63
    → HasOwners subs
    → HasDistinctIds subs
    → All IsWithin subs
    → AllCount bucket_at subs
    → let rows = Quota.attribute billed subs bucket_at in
      used_total (charge_rows bucket_at subs rows) + tally overflow_subscription_id rows
      ≡ used_total subs + pos_part billed
charge_rows_conserves billed bucket_at subs fits o d w c =
    let rows = Quota.attribute billed subs bucket_at in
    let (_, positive, _) = attribute_conserves billed subs bucket_at fits in
    let counters =
      All-imp IsWithin (λ s. IsInt64 s.used_bytes) (λ s h. h.counted.used_fits) subs w in
    let gain =
      used_total-settle (counts_toward_current_period bucket_at) rows subs subs bucket_at
        (pos_part billed) (λ k. attribute-drained k billed subs bucket_at fits) w o c
        (drained-le-capacity bucket_at subs (pos_part billed) o d) in
    rw (charge_rows-settle bucket_at rows subs d counters positive) (
      omega (
        arith,
        gain,
        attribute-drained overflow_subscription_id billed subs bucket_at fits,
        drained_total-all subs bucket_at (pos_part billed) o d,
      ))
