-- ===== src/Metering/Ladder/Calls.antt =====
-- Sequences of calls of the methods of internal/metering/ladder.go that change the ladder, with what
-- each returns.
use lumi_panel.Base.{Bool, List, [], ◌∷◌, ℤ}
use lumi_panel.Time.{Instant}
use lumi_panel.Domain.Quota.{SubQuota, LedgerRow}
use lumi_panel.Metering.Ladder.{QuotaLadder, rebuild, sync, drop, attribute, reconcile, reset}

pub data Call : Type 0 where
  calls_rebuild : (user : ℤ) (subs : List SubQuota) → Call
  calls_sync : (user : ℤ) (subs : List SubQuota) → Call
  calls_drop : (user : ℤ) → Call
  calls_attribute : (user billed : ℤ) (bucket_at : Instant) → Call
  calls_reconcile : (user id used : ℤ) → Call
  calls_reset : (user id epoch : ℤ) (reset_at : Instant) → Call

pub data Result : Type 0 where
  nothing : Result
  rows : List LedgerRow → Result
  found : Bool → Result

unfoldable pub call : Call → QuotaLadder → QuotaLadder × Result
unfolding rebuild sync drop attribute reconcile reset
call (calls_rebuild user subs) l = (rebuild user subs l, nothing)
call (calls_sync user subs) l = (sync user subs l, nothing)
call (calls_drop user) l = (drop user l, nothing)
call (calls_attribute user billed bucket_at) l =
    let (after, out) = attribute user billed bucket_at l in (after, rows out)
call (calls_reconcile user id used) l =
    let (after, ok) = reconcile user id used l in (after, found ok)
call (calls_reset user id epoch reset_at) l =
    let (after, ok) = reset user id epoch reset_at l in (after, found ok)

unfoldable pub run_calls : List Call → QuotaLadder → QuotaLadder × List Result
unfolding call
run_calls [] l = (l, [])
run_calls (c ∷ cs) l = let (m, r) = call c l in let (n, rs) = run_calls cs m in (n, r ∷ rs)
