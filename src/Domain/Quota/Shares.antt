-- ===== src/Domain/Quota/Shares.antt =====
-- Closed forms of the waterfall of `Attribute`: the share of one subscription, and the overflow.
use Prim.Native.Nat.{min}
use lumi_panel.Base.{
  ℕ, ◌+◌, ◌-◌, ◌<◌, ◌^◌, ◌≡◌, ◌≢◌, arith, List, [], ◌∷◌, ◌++◌, ℤ, ==ℤ_iff, pos_part, All,
}
use lumi_panel.Time.{Instant}
use lumi_panel.Domain.Quota.{SubQuota, attribute, overflow_subscription_id}
use lumi_panel.Domain.Quota.Attribution.{capacity, tally, drained, attribute-drained}

unfoldable pub total_capacity : Instant → List SubQuota → ℕ
total_capacity at [] = 0
total_capacity at (s ∷ subs) = capacity at s + total_capacity at subs

abbrev pub Lacks : ℤ → List SubQuota → Type 0
Lacks k = All (λ s. s.id ≢ k)

drained-overflow :
    (subs : List SubQuota) (at : Instant) (n : ℕ)
    → Lacks overflow_subscription_id subs
    → drained overflow_subscription_id subs at n ≡ n - total_capacity at subs
unfolding drained total_capacity
drained-overflow [] at n h = ground arith
drained-overflow (s ∷ subs) at n (h, hs) =
    ground (
      arith,
      drained-overflow subs at (n - capacity at s) hs,
      ==ℤ_iff s.id overflow_subscription_id,
    )

pub drained-absent :
    (k : ℤ) (subs : List SubQuota) (at : Instant) (n : ℕ)
    → k ≢ overflow_subscription_id
    → Lacks k subs
    → drained k subs at n ≡ 0
unfolding drained
drained-absent k [] at n h l = ground (arith, ==ℤ_iff overflow_subscription_id k)
drained-absent k (s ∷ subs) at n h (l, ls) =
    ground (arith, drained-absent k subs at (n - capacity at s) h ls, ==ℤ_iff s.id k)

drained-share :
    (xs ys : List SubQuota) (s : SubQuota) (at : Instant) (n : ℕ)
    → s.id ≢ overflow_subscription_id
    → Lacks s.id xs
    → Lacks s.id ys
    → drained s.id (xs ++ s ∷ ys) at n ≡ min (n - total_capacity at xs) (capacity at s)
unfolding drained total_capacity
drained-share [] ys s at n h lx ly =
    ground (arith, drained-absent s.id ys at (n - capacity at s) h ly, ==ℤ_iff s.id s.id)
drained-share (x ∷ xs) ys s at n h (l, lx) ly =
    ground (arith, drained-share xs ys s at (n - capacity at x) h lx ly, ==ℤ_iff x.id s.id)

-- Where no subscription has ID 0, the overflow row of an int64 amount is exactly what the whole
-- ladder could not absorb.
pub attribute_overflow :
    (billed : ℤ) (subs : List SubQuota) (at : Instant)
    → pos_part billed < 2 ^ 63
    → Lacks overflow_subscription_id subs
    → tally overflow_subscription_id (attribute billed subs at)
      ≡ pos_part billed - total_capacity at subs
attribute_overflow billed subs at h l =
    rw (attribute-drained overflow_subscription_id billed subs at h) (drained-overflow subs at _ l)

-- Of an int64 amount, a subscription whose ID is not 0 and occurs nowhere else pays what its
-- predecessors could not absorb, up to its own capacity: nothing if it has expired or is used up,
-- and nothing while an earlier one still has room for the amount.
pub attribute_share :
    (billed : ℤ) (xs ys : List SubQuota) (s : SubQuota) (at : Instant)
    → pos_part billed < 2 ^ 63
    → s.id ≢ overflow_subscription_id
    → Lacks s.id xs
    → Lacks s.id ys
    → tally s.id (attribute billed (xs ++ s ∷ ys) at)
      ≡ min (pos_part billed - total_capacity at xs) (capacity at s)
attribute_share billed xs ys s at h nonzero lx ly =
    rw (attribute-drained s.id billed (xs ++ s ∷ ys) at h)
      (drained-share xs ys s at _ nonzero lx ly)
