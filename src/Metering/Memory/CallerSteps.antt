-- ===== src/Metering/Memory/CallerSteps.antt =====
-- What callers of internal/metering/ladder.go do to memory, and its ladder.
use lumi_panel.Base.{
  ◌<◌, ◌≡◌, ap, refl, arith, true, false, Bool-cases, inl, inr, List, ℤ, ◌==◌, ==_iff,
}
use lumi_panel.Base.Assoc.{Every-imp, map_values-same}
use lumi_panel.Time.{Instant}
use lumi_panel.Metering.Memory.{
  Address, Cell, Memory, Store, update, write_time, write_slice, new_time, new_slice, read_slice,
  snapshot, value_of,
}
use lumi_panel.Metering.Memory.Frames.{IsFresh, All-Points-imp, reads-same}
use lumi_panel.Metering.Memory.Separation.{Held, Owns, IsHidden, IsSeparate}
use lumi_panel.Metering.Memory.Installs.{snapshot_lem}
use lumi_panel.Metering.Memory.Callers.{HoldsPoints, hand_over}

-- What is hidden from the callers stays hidden, and as it was.
pub record Leaves (h h' : Held) (m m' : Memory) : Type 0 where
  times : (q : Address) → IsHidden h m q → IsHidden h' m' q × (m'.times q ≡ m.times q)
  slices :
      (p : Address)
      → p < m.next
      → h.slices p ≡ false
      → (p < m'.next) × (h'.slices p ≡ false) × (m'.slices p ≡ m.slices p)

-- A step of the callers: the ladder is apart from them as before, and has the value that it had.
pub record IsHarmless (s : Store) (h' : Held) (m' : Memory) : Type 0 where
  pub separate : IsSeparate h' (record s { memory = m' })
  pub value : value_of (record s { memory = m' }) ≡ value_of s

module _ (h h' : Held) (s : Store) (m' : Memory) (sep : IsSeparate h s)
    (leaves : Leaves h h' s.memory m') where
  Leaves-Owns : (p : Address) → Owns h s.memory p → Owns h' m' p
  Leaves-Owns p (lt, hid, pts) =
      let (lt', hid', same) = leaves.slices p lt hid in
      (
        lt',
        hid',
        rw same (
            All-Points-imp (IsHidden h s.memory) (IsHidden h' m') (λ q k. (leaves.times q k).0)
              (s.memory.slices p) pts),
      )

  Leaves-reads : (p : Address) → Owns h s.memory p → read_slice m' p ≡ read_slice s.memory p
  Leaves-reads p (lt, hid, pts) = rw (leaves.slices p lt hid).2 (
      reads-same s.memory m' (IsHidden h s.memory) (λ q k. (leaves.times q k).1) (s.memory.slices p)
        pts)

  Leaves-IsHarmless :
      ((q : Address) → h'.times q ≡ true → q < m'.next)
      → ((p : Address) → h'.slices p ≡ true → (p < m'.next) × HoldsPoints h' (m'.slices p))
      → IsHarmless s h' m'
  Leaves-IsHarmless below closed = record {
    separate = record {
      owned = Every-imp (Owns h s.memory) (Owns h' m') Leaves-Owns s.ladders sep.owned;
      apart = sep.apart;
      times_below = below;
      slices_closed = closed;
    };
    value =
        ap (λ l. record { ladders = l })
          (map_values-same (read_slice m') (read_slice s.memory) s.ladders (
            Every-imp (Owns h s.memory) (λ p. read_slice m' p ≡ read_slice s.memory p) Leaves-reads
              s.ladders sep.owned));
  }

module _ (h : Held) (s : Store) (sep : IsSeparate h s) where
  pub write_time-IsHarmless :
      (p : Address) (t : Instant) → h.times p ≡ true → IsHarmless s h (write_time p t s.memory)
  write_time-IsHarmless p t k =
      Leaves-IsHarmless h h s (write_time p t s.memory) sep
        (record {
          times = λ q hid. (hid, ground (arith, ==_iff p q));
          slices = λ q lt hid. (lt, hid, refl);
        })
        sep.times_below sep.slices_closed

  pub write_slice-IsHarmless :
      (p : Address) (cells : List Cell)
      → h.slices p ≡ true
      → HoldsPoints h cells
      → IsHarmless s h (write_slice p cells s.memory)
  write_slice-IsHarmless p cells k pts =
      Leaves-IsHarmless h h s (write_slice p cells s.memory) sep
        (record {
          times = λ q hid. (hid, refl);
          slices = λ q lt hid. (lt, hid, ground (arith, ==_iff p q));
        })
        sep.times_below
        (λ q e. elim (Bool-cases (p == q)) [
          | inl d ↦ rw d ((sep.slices_closed q e).0, pts)
          | inr d ↦ rw d (sep.slices_closed q e)
        ])

  -- What the callers had they still have.
  closed_as_before :
      (h' : Held)
      → ((q : Address) → h.times q ≡ true → h'.times q ≡ true)
      → (p : Address) → h.slices p ≡ true
      → HoldsPoints h' (s.memory.slices p)
  closed_as_before h' more p e =
      All-Points-imp (λ q. h.times q ≡ true) (λ q. h'.times q ≡ true) more (s.memory.slices p)
        (sep.slices_closed p e).1

  pub new_time-IsHarmless :
      (t : Instant)
      → IsHarmless s (record h { times = update s.memory.next true h.times }) (new_time t s.memory)
  new_time-IsHarmless t =
      let n = s.memory.next in
      let h' : Held = record h { times = update n true h.times } in
      Leaves-IsHarmless h h' s (new_time t s.memory) sep
        (record {
          times = λ q hid. ground (arith, ==_iff n q);
          slices = λ q lt hid. (omega arith, hid, refl);
        })
        (λ q e. ground (arith, ==_iff n q, sep.times_below q))
        (λ p e. (
          omega (arith, (sep.slices_closed p e).0),
          closed_as_before h' (λ q k. ground (arith, k)) p e,
        ))

  pub new_slice-IsHarmless :
      (cells : List Cell)
      → HoldsPoints h cells
      → IsHarmless s
          (record h { slices = update s.memory.next true h.slices })
          (new_slice cells s.memory)
  new_slice-IsHarmless cells pts =
      let n = s.memory.next in
      let h' : Held = record h { slices = update n true h.slices } in
      Leaves-IsHarmless h h' s (new_slice cells s.memory) sep
        (record {
          times = λ q hid. ((omega arith, hid.1), refl);
          slices = λ q lt hid. ground (arith, ==_iff n q);
        })
        (λ q e. omega (arith, sep.times_below q e))
        (λ p e. elim (Bool-cases (n == p)) [
          | inl d ↦ rw d (ground (arith, ==_iff n p), pts)
          | inr d ↦
              let old : h.slices p ≡ true = rw d at e in
              rw d (omega (arith, (sep.slices_closed p old).0), (sep.slices_closed p old).1)
        ])

  -- The timestamps in the slice that `Snapshot` returns are made with it.
  handed_over :
      (user : ℤ)
      → HoldsPoints (hand_over user h s) ((snapshot user s).1.memory.slices (snapshot user s).0)
  handed_over user =
      let (p, t) = snapshot user s in
      All-Points-imp (IsFresh s.memory t.memory) (λ q. (hand_over user h s).times q ≡ true)
        (λ q (k : IsFresh s.memory t.memory q). ground (arith, k)) (t.memory.slices p)
        (snapshot_lem h s sep user).points

  snapshot-IsHarmless : (user : ℤ) → IsHarmless s (hand_over user h s) (snapshot user s).1.memory
  snapshot-IsHarmless user =
      let (p, t) = snapshot user s in
      let m' = t.memory in
      let k = snapshot_lem h s sep user in
      let h' = hand_over user h s in
      Leaves-IsHarmless h h' s m' sep
        (record {
          times = λ q hid. ground (arith, k.extends.times q, k.extends.grows);
          slices =
              λ q lt hid. ground (arith, ==_iff p q, k.extends.slices q, k.extends.grows, k.fresh);
        })
        (λ q e. ground (arith, sep.times_below q, k.extends.grows))
        (λ q e. elim (Bool-cases (p == q)) [
          | inl d ↦ rw (← (==_iff p q).0 d) (k.fresh.1, handed_over user)
          | inr d ↦
              let old : h.slices q ≡ true = rw d at e in
              let (lt, pts) = sep.slices_closed q old in
              (
                omega (arith, k.extends.grows),
                rw (k.extends.slices q lt) (closed_as_before h' (λ r e'. ground (arith, e')) q old),
              )
        ])

  pub snapshot_step :
      (user : ℤ)
      → IsSeparate (hand_over user h s) (snapshot user s).1
        × (value_of (snapshot user s).1 ≡ value_of s)
  unfolding snapshot
  snapshot_step user = let step = snapshot-IsHarmless user in (step.separate, step.value)
