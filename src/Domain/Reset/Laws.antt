-- ===== src/Domain/Reset/Laws.antt =====
-- Laws of internal/domain/reset.go.
use lumi_panel.Base.{
  ◌+◌, ◌%◌, ◌≤◌, ◌<◌, ◌≡◌, ◌↔◌, refl, arith, true, some, ℤ, pos, negsuc, ◌-◌, ◌≤ℤ◌, pos_part,
  neg_part, parts_exclusive,
}
use lumi_panel.Base.Word.{IsInt64, sub64-nonneg}
use lumi_panel.Time.{Instant}
use lumi_panel.Domain.Quota.{SubQuota, available}
use lumi_panel.Domain.Quota.Attribution.{capacity}
use lumi_panel.Domain.Reset.{bucket_size, align_bucket, counts_toward_current_period, entitled}

-- Alignment moves back to the last bucket boundary, by less than a bucket; it is idempotent and
-- keeps the order of instants.
pub align_bucket_lem :
    (t u : Instant)
    → (align_bucket t ≤ t)
      × (t < align_bucket t + bucket_size)
      × (align_bucket t % bucket_size ≡ 0)
      × (align_bucket (align_bucket t) ≡ align_bucket t)
      × (t ≤ u → align_bucket t ≤ align_bucket u)
unfolding align_bucket
align_bucket_lem t u = omega arith

-- For a bucket boundary the test compares whole buckets: the bucket counts exactly when it does
-- not begin before the bucket that the reset fell in.
pub counts_toward_current_period_iff :
    (bucket_at reset : Instant)
    → bucket_at % bucket_size ≡ 0
    → (counts_toward_current_period bucket_at (some reset) ≡ true)
      ↔ (reset < bucket_at + bucket_size)
unfolding counts_toward_current_period
counts_toward_current_period_iff bucket_at reset h = ground arith

-- The counters and the allowance are int64 values, and the counter is not negative.
pub record IsCounted (s : SubQuota) : Type 0 where
  pub transfer_fits : IsInt64 s.transfer_bytes
  pub used_fits : IsInt64 s.used_bytes
  pub used_nonneg : pos 0 ≤ℤ s.used_bytes

pub nonneg-parts : (a : ℤ) → pos 0 ≤ℤ a → neg_part a ≡ 0
unfolding pos_part neg_part
nonneg-parts (pos n) h = refl
nonneg-parts (negsuc n) h = absurd (omega arith)

-- What is available is the exact difference, and nothing past the allowance.
pub available-pos :
    (s : SubQuota)
    → IsCounted s
    → available s ≡ pos (pos_part s.transfer_bytes - pos_part s.used_bytes)
unfolding available
available-pos s h = ground (
  arith,
  sub64-nonneg s.transfer_bytes s.used_bytes h.transfer_fits h.used_nonneg,
  nonneg-parts s.used_bytes h.used_nonneg,
  parts_exclusive s.transfer_bytes,
)

-- A subscription with an int64 allowance and an int64 counter that is not negative is entitled at
-- an instant exactly when attribution would charge it there.
pub entitled_iff :
    (s : SubQuota) (at : Instant) → IsCounted s → (entitled s at ≡ true) ↔ (0 < capacity at s)
unfolding entitled capacity
entitled_iff s at h = ground (
  arith,
  available-pos s h,
  nonneg-parts s.used_bytes h.used_nonneg,
  parts_exclusive s.transfer_bytes,
)
