-- ===== src/Metering/Reports.antt =====
-- From the reports of the nodes to the ladder: the check and the arithmetic of
-- internal/domain/traffic.go in front of `Attribute` of internal/metering/ladder.go.
mod Tests
use lumi_panel.Base.{
  ℕ, ◌+◌, ◌*◌, ◌/◌, ◌<◌, ◌≤◌, ◌^◌, ◌≡◌, refl, arith, none, List, [], ◌∷◌, map, ℤ, pos, pos_part,
  ◌∙◌, neg_part, ◌==ℤ◌, ==ℤ_iff, if◌then◌else◌, All, Bool-cases, inl, inr, ap,
}
use lumi_panel.Time.{Instant}
use lumi_panel.Domain.Quota.{SubQuota}
use lumi_panel.Domain.Traffic.{validate_delta, billed_bytes}
use lumi_panel.Domain.Traffic.Billing.{FitsRate, billed_bytes_exact, billed_bytes-fits}
use lumi_panel.Metering.Ladder.{QuotaLadder, ladder_of}
use lumi_panel.Metering.Ladder.Conserve.{used_total, AllCount}
use lumi_panel.Metering.Ladder.Flush.{IsSound}
use lumi_panel.Metering.Ladder.Flushes.{
  Flush, flush_all, overflow_of, billed_of, AreCurrent, flush_all_conserves,
}

-- What a node reports of a user in a bucket, with the rate in force.
pub record Report : Type 0 where
  pub user : ℤ
  pub up : ℤ
  pub down : ℤ
  pub rate : ℤ
  pub bucket_at : Instant

-- A report that passes the check, at a rate that fits int16.
pub record IsAccepted (r : Report) : Type 0 where
  pub valid : validate_delta r.up r.down r.rate ≡ none
  pub fits : FitsRate r.rate

-- The flush that bills a report.
abbrev pub flush_of : Report → Flush
flush_of r = record {
  user = r.user;
  billed = billed_bytes r.up r.down r.rate;
  bucket_at = r.bucket_at;
}

-- What the reports of a user come to, each rounded down.
unfoldable pub reported : ℤ → List Report → ℕ
reported u [] = 0
reported u (r ∷ rs) =
    (if r.user ==ℤ u then (pos_part r.up + pos_part r.down) * pos_part r.rate / 100 else 0)
    + reported u rs

billed_of-reported :
    (u : ℤ) (rs : List Report) → All IsAccepted rs → billed_of u (map flush_of rs) ≡ reported u rs
unfolding billed_of reported pos_part
billed_of-reported u [] h = refl
billed_of-reported u (r ∷ rs) (h, hs) =
    rw (billed_bytes_exact r.up r.down r.rate h.valid h.fits, billed_of-reported u rs hs) refl

AreCurrent-reports :
    (u : ℤ) (subs : List SubQuota) (rs : List Report)
    → All IsAccepted rs
    → All (λ r. r.user ≡ u → AllCount r.bucket_at subs) rs
    → AreCurrent u subs (map flush_of rs)
AreCurrent-reports u subs [] h c = tt
AreCurrent-reports u subs (r ∷ rs) (h, hs) (c, cs) = (
  λ e. (billed_bytes-fits r.up r.down r.rate h.valid h.fits, c e),
  AreCurrent-reports u subs rs hs cs,
)

-- However the accepted reports of all users interleave, once they are flushed every counter of a
-- user is within its allowance, and what the counters gained and what overflowed make up exactly
-- the user's reported totals times their rates over 100, each rounded down: from the node to the
-- ledger no byte is lost, invented or spent twice, and nothing wraps. The user starts with int64
-- counters within their allowances, under distinct IDs other than 0, and each bucket reported for
-- the user counts toward all the user's current periods.
pub reports_conserve :
    (u : ℤ) (rs : List Report) (l : QuotaLadder)
    → All IsAccepted rs
    → IsSound (ladder_of u l)
    → All (λ r. r.user ≡ u → AllCount r.bucket_at (ladder_of u l)) rs
    → let fs = map flush_of rs in
      let l' = flush_all fs l in
      IsSound (ladder_of u l')
      × (used_total (ladder_of u l') + overflow_of u fs l
          ≡ used_total (ladder_of u l) + reported u rs)
reports_conserve u rs l h s c =
    let (sound, sum) =
      flush_all_conserves u (map flush_of rs) l s (AreCurrent-reports u (ladder_of u l) rs h c) in
    (sound, sum ∙ ap (λ (n : ℕ). used_total (ladder_of u l) + n) (billed_of-reported u rs h))
