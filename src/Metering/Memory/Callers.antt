-- ===== src/Metering/Memory/Callers.antt =====
-- The ladder of internal/metering/ladder.go between callers that write to whatever they have the
-- address of: the slices that they passed in, those that `Snapshot` returned, and the timestamps
-- that these point at.
use lumi_panel.Base.{◌≡◌, ap, refl, true, List, [], ◌∷◌, ℤ, ltb, leb, ◌&&◌, if◌then◌else◌, All}
use lumi_panel.Time.{Instant}
use lumi_panel.Metering.Ladder.Calls.{
  Call, calls_rebuild, calls_sync, calls_drop, calls_attribute, calls_reconcile, calls_reset,
  Result, nothing, rows, found, call,
}
use lumi_panel.Metering.Memory.{
  Address, Cell, Memory, Store, update, write_time, write_slice, new_time, new_slice, read_slice,
  rebuild, sync, drop, attribute, reconcile, reset, snapshot, value_of,
}
use lumi_panel.Metering.Memory.Frames.{Points}
use lumi_panel.Metering.Memory.Separation.{Held, IsSeparate, IsSound}
use lumi_panel.Metering.Memory.Installs.{rebuild_lem, sync_lem, drop_lem}
use lumi_panel.Metering.Memory.Changes.{attribute_lem, reconcile_lem, reset_lem}

-- A call passes a slice by its address.
pub data MemoryCall : Type 0 where
  rebuilds : (user : ℤ) (subs : Address) → MemoryCall
  syncs : (user : ℤ) (subs : Address) → MemoryCall
  drops : (user : ℤ) → MemoryCall
  attributes : (user billed : ℤ) (bucket_at : Instant) → MemoryCall
  reconciles : (user id used : ℤ) → MemoryCall
  resets : (user id epoch : ℤ) (reset_at : Instant) → MemoryCall

unfoldable pub perform : MemoryCall → Store → Store × Result
unfolding rebuild sync drop attribute reconcile reset
perform (rebuilds user p) s = (rebuild user p s, nothing)
perform (syncs user p) s = (sync user p s, nothing)
perform (drops user) s = (drop user s, nothing)
perform (attributes user billed bucket_at) s =
    let (after, out) = attribute user billed bucket_at s in (after, rows out)
perform (reconciles user id used) s =
    let (after, ok) = reconcile user id used s in (after, found ok)
perform (resets user id epoch reset_at) s =
    let (after, ok) = reset user id epoch reset_at s in (after, found ok)

-- The call with the elements of its slice as they are when it is made.
abbrev pub as_call : MemoryCall → Memory → Call
as_call (rebuilds user p) m = calls_rebuild user (read_slice m p)
as_call (syncs user p) m = calls_sync user (read_slice m p)
as_call (drops user) m = calls_drop user
as_call (attributes user billed bucket_at) m = calls_attribute user billed bucket_at
as_call (reconciles user id used) m = calls_reconcile user id used
as_call (resets user id epoch reset_at) m = calls_reset user id epoch reset_at

-- A caller passes a slice that it has.
abbrev pub HoldsArgument : Held → MemoryCall → Type 0
HoldsArgument h (rebuilds user p) = h.slices p ≡ true
HoldsArgument h (syncs user p) = h.slices p ≡ true
HoldsArgument h _ = Unit

abbrev pub HoldsPoints : Held → List Cell → Type 0
HoldsPoints h = All (Points (λ q. h.times q ≡ true))

-- After `Snapshot` a caller has the slice that it returned and what was made with it.
abbrev pub hand_over : ℤ → Held → Store → Held
hand_over user h s =
    let (p, t) = snapshot user s in
    record {
      times = λ q. if leb s.memory.next q && ltb q t.memory.next then true else h.times q;
      slices = update p true h.slices;
    }

-- What the callers and the ladder may do, one after the other, with the calls that change the
-- ladder and their results: each call holds the lock for its whole body.
pub data Trace (h' : Held) (s' : Store) : Held → Store → List Call → List Result → Type 0 where
  done : Trace h' s' h' s' [] []
  writes_time :
      {h : Held} {s : Store} {cs : List Call} {rs : List Result} (p : Address) (t : Instant)
      → h.times p ≡ true
      → Trace h' s' h (record s { memory = write_time p t s.memory }) cs rs
      → Trace h' s' h s cs rs
  writes_slice :
      {h : Held} {s : Store} {cs : List Call} {rs : List Result} (p : Address) (cells : List Cell)
      → h.slices p ≡ true
      → HoldsPoints h cells
      → Trace h' s' h (record s { memory = write_slice p cells s.memory }) cs rs
      → Trace h' s' h s cs rs
  makes_time :
      {h : Held} {s : Store} {cs : List Call} {rs : List Result} (t : Instant)
      → Trace h' s'
          (record h { times = update s.memory.next true h.times })
          (record s { memory = new_time t s.memory })
          cs
          rs
      → Trace h' s' h s cs rs
  makes_slice :
      {h : Held} {s : Store} {cs : List Call} {rs : List Result} (cells : List Cell)
      → HoldsPoints h cells
      → Trace h' s'
          (record h { slices = update s.memory.next true h.slices })
          (record s { memory = new_slice cells s.memory })
          cs
          rs
      → Trace h' s' h s cs rs
  snapshots :
      {h : Held} {s : Store} {cs : List Call} {rs : List Result} (user : ℤ)
      → Trace h' s' (hand_over user h s) (snapshot user s).1 cs rs
      → Trace h' s' h s cs rs
  calls :
      {h : Held} {s : Store} {cs : List Call} {rs : List Result} (c : MemoryCall)
      → HoldsArgument h c
      → Trace h' s' h (perform c s).0 cs rs
      → Trace h' s' h s (as_call c s.memory ∷ cs) ((perform c s).1 ∷ rs)

pub perform_lem :
    (h : Held) (s : Store)
    → IsSeparate h s
    → (c : MemoryCall) → HoldsArgument h c
    → IsSound h s (perform c s).0 (call (as_call c s.memory) (value_of s)).0
      × ((perform c s).1 ≡ (call (as_call c s.memory) (value_of s)).1)
unfolding perform call
perform_lem h s sep (rebuilds user p) k = (rebuild_lem h s sep user p k, refl)
perform_lem h s sep (syncs user p) k = (sync_lem h s sep user p k, refl)
perform_lem h s sep (drops user) k = (drop_lem h s sep user, refl)
perform_lem h s sep (attributes user billed bucket_at) k =
    let (sound, same) = attribute_lem h s sep user billed bucket_at in (sound, ap rows same)
perform_lem h s sep (reconciles user id used) k =
    let (sound, same) = reconcile_lem h s sep user id used in (sound, ap found same)
perform_lem h s sep (resets user id epoch reset_at) k =
    let (sound, same) = reset_lem h s sep user id epoch reset_at in (sound, ap found same)
