-- ===== src/Metering/Memory/Isolation.antt =====
-- The purpose of `copyQuota` in internal/metering/ladder.go: whether slices and pointers of the
-- ladder can be taken for values.
use lumi_panel.Base.{◌≡◌, ◌∙◌, refl, arith, true, false, List, [], ◌∷◌, ℤ, ==_iff, All}
use lumi_panel.Metering.Ladder
use lumi_panel.Metering.Ladder.{QuotaLadder, new_quota_ladder}
use lumi_panel.Metering.Ladder.Calls.{Call, Result, run_calls}
use lumi_panel.Metering.Memory.{Address, Memory, Store, read_slice, snapshot, value_of}
use lumi_panel.Metering.Memory.Frames.{reads-same}
use lumi_panel.Metering.Memory.Separation.{Held, IsSeparate, Keeps}
use lumi_panel.Metering.Memory.Installs.{snapshot_lem}
use lumi_panel.Metering.Memory.Callers.{
  MemoryCall, perform, HoldsArgument, hand_over, Trace, done, writes_time, writes_slice, makes_time,
  makes_slice, snapshots, calls, perform_lem,
}
use lumi_panel.Metering.Memory.CallerSteps.{
  write_time-IsHarmless, write_slice-IsHarmless, new_time-IsHarmless, new_slice-IsHarmless,
  snapshot_step,
}

-- The calls change the ladder as the same calls change its value, whatever the callers write to
-- what they have in between, and the results are the same.
pub Trace-refines :
    {h' : Held} {s' : Store} {h : Held} {s : Store} {cs : List Call} {rs : List Result}
    → Trace h' s' h s cs rs
    → IsSeparate h s
    → IsSeparate h' s' × (run_calls cs (value_of s) ≡ (value_of s', rs))
unfolding run_calls
Trace-refines done sep = (sep, refl)
Trace-refines (writes_time {h} {s} p t k rest) sep =
    let step = write_time-IsHarmless h s sep p t k in
    rw (← step.value) (Trace-refines rest step.separate)
Trace-refines (writes_slice {h} {s} p cells k pts rest) sep =
    let step = write_slice-IsHarmless h s sep p cells k pts in
    rw (← step.value) (Trace-refines rest step.separate)
Trace-refines (makes_time {h} {s} t rest) sep =
    let step = new_time-IsHarmless h s sep t in rw (← step.value) (Trace-refines rest step.separate)
Trace-refines (makes_slice {h} {s} cells pts rest) sep =
    let step = new_slice-IsHarmless h s sep cells pts in
    rw (← step.value) (Trace-refines rest step.separate)
Trace-refines (snapshots {h} {s} user rest) sep =
    let (sep', same) = snapshot_step h s sep user in rw (← same) (Trace-refines rest sep')
Trace-refines (calls {h} {s} c k rest) sep =
    let (sound, same) = perform_lem h s sep c k in
    let (sep', run) = Trace-refines rest sound.separate in
    (sep', rw (← sound.value, run, ← same) refl)

-- A new ladder, before any caller has an address.
abbrev pub new_store : Store
new_store = record { memory = record { next = 0; times = λ p. 0; slices = λ p. [] }; ladders = [] }

abbrev pub nobody : Held
nobody = record { times = λ p. false; slices = λ p. false }

pub new_store-IsSeparate : IsSeparate nobody new_store
new_store-IsSeparate = record {
  owned = tt;
  apart = tt;
  times_below = λ p e. cc;
  slices_closed = λ p e. cc;
}

-- From a new ladder on, in any interleaving of calls with what callers write through the addresses
-- that they have (of slices passed in, of snapshots, of the timestamps these point at): the calls
-- do to the ladder in memory what they do to the ladder as a value, each slice read when it is
-- passed, and return the same. What the callers may write to never becomes part of the ladder.
pub memory_refines :
    {h : Held} {s : Store} {cs : List Call} {rs : List Result}
    → Trace h s nobody new_store cs rs
    → (run_calls cs new_quota_ladder ≡ (value_of s, rs)) × IsSeparate h s
memory_refines t = let (sep, run) = Trace-refines t new_store-IsSeparate in (run, sep)

-- The calls of a list, one after the other.
unfoldable pub perform_all : List MemoryCall → Store → Store
unfolding perform
perform_all [] s = s
perform_all (c ∷ cs) s = perform_all cs (perform c s).0

pub perform_all-Keeps :
    (h : Held) (cs : List MemoryCall) (s : Store)
    → IsSeparate h s
    → All (HoldsArgument h) cs
    → IsSeparate h (perform_all cs s) × Keeps h s.memory (perform_all cs s).memory
unfolding perform_all
perform_all-Keeps h [] s sep ks =
    (sep, record { grows = omega arith; times = λ p e. refl; slices = λ p e. refl })
perform_all-Keeps h (c ∷ cs) s sep (k, ks) =
    let sound = (perform_lem h s sep c k).0 in
    let (sep', kept) = perform_all-Keeps h cs (perform c s).0 sound.separate ks in
    (
      sep',
      record {
        grows = omega (arith, sound.keeps.grows, kept.grows);
        times = λ p e. kept.times p e ∙ sound.keeps.times p e;
        slices = λ p e. kept.slices p e ∙ sound.keeps.slices p e;
      },
    )

Keeps-reads :
    (h : Held) (s : Store) {m' : Memory}
    → IsSeparate h s
    → Keeps h s.memory m'
    → (p : Address) → h.slices p ≡ true
    → read_slice m' p ≡ read_slice s.memory p
Keeps-reads h s {m'} sep kept p held = rw (kept.slices p held) (
    reads-same s.memory m' (λ q. h.times q ≡ true) kept.times (s.memory.slices p)
      (sep.slices_closed p held).1)

-- In any state that a new ladder may come to, `Snapshot` returns a slice that reads as the user's
-- ladder does, and whatever calls of the ladder follow, it goes on reading so.
pub snapshot_keeps :
    {h : Held} {s : Store} {cs : List Call} {rs : List Result}
    → Trace h s nobody new_store cs rs
    → (user : ℤ) (later : List MemoryCall)
    → let (p, t) = snapshot user s in
      All (HoldsArgument (hand_over user h s)) later
      → (read_slice t.memory p ≡ Ladder.snapshot user (value_of s))
        × (read_slice (perform_all later t).memory p ≡ Ladder.snapshot user (value_of s))
snapshot_keeps {h} {s} trace user later ks =
    let (p, t) = snapshot user s in
    let sep = (memory_refines trace).1 in
    let placed = snapshot_lem h s sep user in
    let (sep', same) = snapshot_step h s sep user in
    let (sep'', kept) = perform_all-Keeps (hand_over user h s) later t sep' ks in
    (
      placed.reads,
      Keeps-reads (hand_over user h s) t sep' kept p (rw ((==_iff p p).1 refl) refl) ∙ placed.reads,
    )
