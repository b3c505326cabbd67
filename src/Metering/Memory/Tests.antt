-- ===== src/Metering/Memory/Tests.antt =====
-- Callers and ladder of internal/metering/ladder.go on concrete memory.
use lumi_panel.Base.{◌≡◌, refl, none, some, List, [], ◌∷◌, pos}
use lumi_panel.Domain.Quota.{SubQuota, LedgerRow, primary}
use lumi_panel.Domain.Quota
use lumi_panel.Domain.Reset.{counts_toward_current_period}
use lumi_panel.Metering.Ladder
use lumi_panel.Metering.Ladder.{new_quota_ladder}
use lumi_panel.Metering.Ladder.Calls.{
  Call, Result, nothing, rows, calls_rebuild, calls_attribute, run_calls,
}
use lumi_panel.Metering.Memory.{Cell, Store, read_slice, snapshot, value_of}
use lumi_panel.Metering.Memory.Separation.{Held, IsSeparate}
use lumi_panel.Metering.Memory.Callers.{
  MemoryCall, rebuilds, attributes, resets, drops, perform, Trace, done, writes_time, writes_slice,
  makes_time, makes_slice, snapshots, calls,
}
use lumi_panel.Metering.Memory.Isolation.{
  nobody, new_store, perform_all, memory_refines, snapshot_keeps,
}

-- A subscription of 100 bytes, 40 of them used, that expires when the variable says.
abbrev pack : Cell
pack = record {
  id = pos 10;
  kind = primary;
  transfer_bytes = pos 100;
  used_bytes = pos 40;
  expired_at = some 0;
  last_reset_at = none;
  reset_epoch = pos 0;
}

abbrev pack_value : SubQuota
pack_value = record {
  id = pos 10;
  kind = primary;
  transfer_bytes = pos 100;
  used_bytes = pos 40;
  expired_at = some 900;
  last_reset_at = none;
  reset_epoch = pos 0;
}

record Session : Type 0 where
  held : Held
  store : Store
  cs : List Call
  rs : List Result
  trace : Trace held store nobody new_store cs rs

-- The caller passes the subscription in, then clears its slice and moves the expiry to the past.
-- It takes a snapshot, whose slice is at 5 and whose expiry is at 4, and spoils these too.
abbrev session : Session
unfolding perform snapshot Quota.attribute counts_toward_current_period
session = record {
  held = _;
  store = _;
  cs = _;
  rs = _;
  trace = makes_time 900 (
      makes_slice (pack ∷ []) ((refl, tt), tt)
        (calls (rebuilds (pos 1) 1) refl (
          writes_time 0 7 refl (
            writes_slice 1 [] refl tt (
              calls (attributes (pos 1) (pos 30) 600) tt (
                snapshots (pos 1) (
                  writes_time 4 8 refl (
                    writes_slice 5 [] refl tt
                      (calls (attributes (pos 1) (pos 70) 600) tt done)))))))));
}

-- Had the ladder kept the caller's memory, the pack would have been gone, or expired at 7 or 8.
session_results :
    session.rs
    ≡ nothing
      ∷ rows (record { subscription_id = pos 10; billed = pos 30 } ∷ [])
      ∷ rows (
          record { subscription_id = pos 10; billed = pos 30 }
          ∷ record { subscription_id = pos 0; billed = pos 40 }
          ∷ [])
      ∷ []
unfolding session
session_results = refl

session_calls :
    session.cs
    ≡ calls_rebuild (pos 1) (pack_value ∷ [])
      ∷ calls_attribute (pos 1) (pos 30) 600
      ∷ calls_attribute (pos 1) (pos 70) 600
      ∷ []
unfolding session
session_calls = refl

memory_refines_example :
    (run_calls session.cs new_quota_ladder ≡ (value_of session.store, session.rs))
    × IsSeparate session.held session.store
memory_refines_example = memory_refines session.trace

abbrev afterwards : List MemoryCall
afterwards =
    attributes (pos 1) (pos 5) 700
    ∷ resets (pos 1) (pos 10) (pos 1) 1000
    ∷ rebuilds (pos 1) 1
    ∷ drops (pos 1)
    ∷ []

snapshot_keeps_example :
    let (p, t) = snapshot (pos 1) session.store in
    (read_slice t.memory p ≡ Ladder.snapshot (pos 1) (value_of session.store))
    × (read_slice (perform_all afterwards t).memory p
        ≡ Ladder.snapshot (pos 1) (value_of session.store))
unfolding session snapshot
snapshot_keeps_example =
    snapshot_keeps session.trace (pos 1) afterwards (tt, (tt, (refl, (tt, tt))))
