-- ===== src/Domain/Reset/Tests.antt =====
-- Runs of internal/domain/reset.go, and its theorems at concrete instants.
use lumi_panel.Base.{◌*◌, ◌≡◌, refl, arith, none, pos, pos_part, neg_part}
use lumi_panel.Time.{minute}
use lumi_panel.Domain.Quota.{SubQuota, primary}
use lumi_panel.Domain.Reset.{align_bucket}
use lumi_panel.Domain.Reset.Laws.{IsCounted}

aligns : align_bucket (7 * minute) ≡ 5 * minute
unfolding align_bucket
aligns = refl

abbrev main : SubQuota
main = record {
  id = pos 10;
  kind = primary;
  transfer_bytes = pos 100;
  used_bytes = pos 40;
  expired_at = none;
  last_reset_at = none;
  reset_epoch = pos 0;
}

main-IsCounted : IsCounted main
unfolding pos_part neg_part
main-IsCounted = omega arith
