-- ===== src/Metering/Reports/Tests.antt =====
-- Two reports for one user, from internal/domain/traffic.go to internal/metering/ladder.go.
use lumi_panel.Base.{◌+◌, ◌≡◌, refl, arith, none, List, [], ◌∷◌, map, pos, pos_part, neg_part}
use lumi_panel.Domain.Quota.{SubQuota, primary}
use lumi_panel.Domain.Quota
use lumi_panel.Domain.Quota.Attribution.{tally}
use lumi_panel.Domain.Traffic.{validate_delta, billed_bytes}
use lumi_panel.Domain.Reset.{counts_toward_current_period}
use lumi_panel.Metering.Ladder.{QuotaLadder, ladder_of}
use lumi_panel.Metering.Ladder.Conserve.{used_total}
use lumi_panel.Metering.Ladder.Flush.{IsSound}
use lumi_panel.Metering.Ladder.Flushes.{flush_all, overflow_of}
use lumi_panel.Metering.Reports.{Report, flush_of, reported, reports_conserve}

abbrev main : SubQuota
main = record {
  id = pos 10;
  kind = primary;
  transfer_bytes = pos 100;
  used_bytes = pos 40;
  expired_at = none;
  last_reset_at = none;
  reset_epoch = pos 0;
}

abbrev held : QuotaLadder
held = record { ladders = (pos 1, main ∷ []) ∷ [] }

-- 31 bytes at 1.50 bill 46 of the 60 that are left; 20 at 1.00 overflow by 6.
abbrev reports : List Report
reports =
    record { user = pos 1; up = pos 11; down = pos 20; rate = pos 150; bucket_at = 400 }
    ∷ record { user = pos 1; up = pos 0; down = pos 20; rate = pos 100; bucket_at = 700 }
    ∷ []

ends : (reported (pos 1) reports ≡ 66) × (overflow_of (pos 1) (map flush_of reports) held ≡ 6)
unfolding reported overflow_of pos_part neg_part tally billed_bytes Quota.attribute
    counts_toward_current_period
ends = (refl, refl)

reports_conserve_example :
    let fs = map flush_of reports in
    let l' = flush_all fs held in
    IsSound (ladder_of (pos 1) l')
    × (used_total (ladder_of (pos 1) l') + overflow_of (pos 1) fs held
        ≡ used_total (ladder_of (pos 1) held) + reported (pos 1) reports)
unfolding pos_part neg_part ladder_of counts_toward_current_period validate_delta
reports_conserve_example =
    reports_conserve (pos 1) reports held
      (
        record { valid = refl; fits = omega arith },
        (record { valid = refl; fits = omega arith }, tt),
      )
      (record {
        owners = ((λ e. cc), tt);
        distinct = (tt, tt);
        within = (
          record {
            counted = record {
              transfer_fits = record { below = omega arith; above = omega arith };
              used_fits = record { below = omega arith; above = omega arith };
              used_nonneg = omega arith;
            };
            within = omega arith;
          },
          tt,
        );
      })
      ((λ e. (refl, tt)), ((λ e. (refl, tt)), tt))
