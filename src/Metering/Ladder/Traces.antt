-- ===== src/Metering/Ladder/Traces.antt =====
-- A sequence of calls of internal/metering/ladder.go, as the abstract ladder replays it.
use lumi_panel.Base.{
  ℕ, ◌<◌, ◌^◌, arith, ◌≡◌, refl, true, false, All, none, List, [], ◌∷◌, pos, pos_part, neg_part,
}
use lumi_panel.Base.Word.{IsInt64, wrap64}
use lumi_panel.Domain.Quota.{SubQuota, LedgerRow, primary}
use lumi_panel.Domain.Quota
use lumi_panel.Domain.Reset.{counts_toward_current_period}
use lumi_panel.Metering.Ladder.{new_quota_ladder}
use lumi_panel.Metering.Ladder.Calls.{
  Call, calls_rebuild, calls_sync, calls_drop, calls_attribute, calls_reconcile, calls_reset,
  nothing, rows, found, run_calls,
}
use lumi_panel.Metering.Ladder.Abstract.{Replays}
use lumi_panel.Metering.Ladder.Refinement.{shown, IsFit, run_calls_refines}

abbrev main : SubQuota
main = record {
  id = pos 10;
  kind = primary;
  transfer_bytes = pos 100;
  used_bytes = pos 40;
  expired_at = none;
  last_reset_at = none;
  reset_epoch = pos 0;
}

abbrev session : List Call
session =
    calls_rebuild (pos 1) (main ∷ [])
    ∷ (calls_attribute (pos 1) (pos 70) 400
        ∷ (calls_reconcile (pos 1) (pos 10) (pos 5)
            ∷ (calls_sync (pos 1) (record main { transfer_bytes = pos 500 } ∷ [])
                ∷ (calls_reset (pos 1) (pos 11) (pos 1) 900 ∷ (calls_drop (pos 2) ∷ [])))))

results :
    (run_calls session new_quota_ladder).1
    ≡ nothing
      ∷ (rows (
            record { subscription_id = pos 10; billed = pos 60 }
            ∷ (record { subscription_id = pos 0; billed = pos 10 } ∷ []))
          ∷ (found true ∷ (nothing ∷ (found false ∷ (nothing ∷ [])))))
unfolding run_calls Quota.attribute wrap64 counts_toward_current_period
results = refl

small : (n : ℕ) → n < 2 ^ 63 → IsInt64 (pos n)
unfolding pos_part neg_part
small n h = record { below = h; above = omega arith }

fits : All IsFit session
unfolding pos_part
fits = (
  (small 40 (omega arith), tt),
  (omega arith, (small 5 (omega arith), ((small 40 (omega arith), tt), (tt, (tt, tt))))),
)

run_calls_refines_example :
    let (l, rs) = run_calls session new_quota_ladder in Replays session (λ u k. none) rs (shown l)
run_calls_refines_example = run_calls_refines session fits
