-- ===== src/Metering/Memory/Copies.antt =====
-- The copies that `copyQuota`, `prepare` and `Snapshot` of internal/metering/ladder.go make.
use mathlib.Core.Path.{ap₂}
use lumi_panel.Base.{
  ℕ, ◌≡◌, ◌∙◌, refl, arith, Bool, true, Option, none, some, List, [], ◌∷◌, map, All, ℤ, Bool-cases,
  inl, inr, ==_iff,
}
use lumi_panel.Base.Assoc.{insert}
use lumi_panel.Base.Sort.{sort_stable}
use lumi_panel.Base.Sort.Laws.{All-sort_stable, map-sort_stable}
use lumi_panel.Domain.Quota.{SubQuota, less, sort_for_deduction}
use lumi_panel.Metering.Ladder.{is_seen, dedup, prepare}
use lumi_panel.Metering.Ladder.Prepare.{copy_quota_lem}
use lumi_panel.Metering.Memory.{
  Address, Cell, Memory, new_time, new_slice, read_time, read, read_slice, copy_time, copy_cell,
  dedup_cells, less_cells, prepare_slice, copy_cells,
}
use lumi_panel.Metering.Memory.Frames.{
  On, Points, IsBelow, IsFresh, Extends, Extends-refl, Extends-trans, All-Points-imp, Points-imp,
  On-imp, read_time-same, read-same, reads-same,
}

pub new_time-Extends : (m : Memory) (t : ℕ) → Extends m (new_time t m)
new_time-Extends m t = record {
  grows = omega arith;
  times = λ p h. ground arith;
  slices = λ p h. refl;
}

pub new_slice-Extends : (m : Memory) (cells : List Cell) → Extends m (new_slice cells m)
new_slice-Extends m cells = record {
  grows = omega arith;
  times = λ p h. refl;
  slices = λ p h. ground arith;
}

-- Copied pointers are fresh, and read what the originals read.
record CopiesTime (m : Memory) (p : Option Address) : Type 0 where
  extends : Extends m (copy_time p m).1
  fresh : On (IsFresh m (copy_time p m).1) (copy_time p m).0
  reads : read_time (copy_time p m).1 (copy_time p m).0 ≡ read_time m p

copy_time_lem : (p : Option Address) (m : Memory) → CopiesTime m p
unfolding copy_time
copy_time_lem none m = record { extends = Extends-refl m; fresh = tt; reads = refl }
copy_time_lem (some p) m = record {
  extends = new_time-Extends m (m.times p);
  fresh = omega arith;
  reads = ground arith;
}

record CopiesCell (m : Memory) (c : Cell) : Type 0 where
  extends : Extends m (copy_cell c m).1
  fresh : Points (IsFresh m (copy_cell c m).1) (copy_cell c m).0
  reads : read (copy_cell c m).1 (copy_cell c m).0 ≡ read m c

copy_cell_lem : (c : Cell) (m : Memory) → Points (IsBelow m) c → CopiesCell m c
unfolding copy_cell
copy_cell_lem c m (he, hr) =
    let first = copy_time_lem c.expired_at m in
    let m' = (copy_time c.expired_at m).1 in
    let second = copy_time_lem c.last_reset_at m' in
    let m'' = (copy_time c.last_reset_at m').1 in
    record {
      extends = Extends-trans first.extends second.extends;
      fresh = (
        On-imp (IsFresh m m') (IsFresh m m'')
            (λ p (h : IsFresh m m' p). (h.0, omega (arith, h.1, second.extends.grows)))
            (copy_time c.expired_at m).0 first.fresh,
        On-imp (IsFresh m' m'') (IsFresh m m'')
            (λ p (h : IsFresh m' m'' p). (omega (arith, h.0, first.extends.grows), h.1))
            (copy_time c.last_reset_at m').0 second.fresh,
      );
      reads =
          let e =
            read_time-same m' m'' (IsBelow m') second.extends.times (copy_time c.expired_at m).0 (
              On-imp (IsFresh m m') (IsBelow m') (λ p (h : IsFresh m m' p). h.1)
                (copy_time c.expired_at m).0 first.fresh)
            ∙ first.reads in
          let r =
            second.reads ∙ read_time-same m m' (IsBelow m) first.extends.times c.last_reset_at hr in
          rw (e, r) refl;
    }

-- Cells that were copied out of a memory: their pointers are fresh, and they read as the value.
record Copied (m : Memory) (out : List Cell × Memory) (value : List SubQuota) : Type 0 where
  extends : Extends m out.1
  fresh : All (Points (IsFresh m out.1)) out.0
  reads : map (read out.1) out.0 ≡ value

Copied-nil : (m : Memory) → Copied m ([], m) []
Copied-nil m = record { extends = Extends-refl m; fresh = tt; reads = refl }

module _ (m : Memory) (c : Cell) (below : Points (IsBelow m) c) (cells : List Cell) where
  IsBelow-after_copy :
      All (Points (IsBelow m)) cells → All (Points (IsBelow (copy_cell c m).1)) cells
  IsBelow-after_copy =
      All-Points-imp (IsBelow m) (IsBelow (copy_cell c m).1)
        (λ p (h : IsBelow m p). omega (arith, (copy_cell_lem c m below).extends.grows)) cells

  read_after_copy :
      All (Points (IsBelow m)) cells → map (read (copy_cell c m).1) cells ≡ map (read m) cells
  read_after_copy =
      reads-same m (copy_cell c m).1 (IsBelow m) (copy_cell_lem c m below).extends.times cells

  -- A copy in front of the copies that are made after it.
  Copied-cons :
      (rest : List Cell × Memory) (value : List SubQuota)
      → Copied (copy_cell c m).1 rest value
      → Copied m ((copy_cell c m).0 ∷ rest.0, rest.1) (read m c ∷ value)
  Copied-cons rest value k =
      let first = copy_cell_lem c m below in
      let m' = (copy_cell c m).1 in
      let c' = (copy_cell c m).0 in
      record {
        extends = Extends-trans first.extends k.extends;
        fresh = (
          Points-imp (IsFresh m m') (IsFresh m rest.1)
              (λ p (h : IsFresh m m' p). (h.0, omega (arith, h.1, k.extends.grows))) c' first.fresh,
          All-Points-imp (IsFresh m' rest.1) (IsFresh m rest.1)
              (λ p (h : IsFresh m' rest.1 p). (omega (arith, h.0, first.extends.grows), h.1)) rest.0
              k.fresh,
        );
        reads =
            ap₂ (λ (s : SubQuota) (l : List SubQuota). s ∷ l)
              (read-same m' rest.1 (IsBelow m') k.extends.times c' (
                  Points-imp (IsFresh m m') (IsBelow m') (λ p (h : IsFresh m m' p). h.1) c'
                    first.fresh)
                ∙ first.reads)
              k.reads;
      }

copy_cells_lem :
    (cells : List Cell) (m : Memory)
    → All (Points (IsBelow m)) cells
    → Copied m (copy_cells cells m) (map (read m) cells)
unfolding copy_cells
copy_cells_lem [] m h = Copied-nil m
copy_cells_lem (c ∷ cells) m (h, hs) =
    let m' = (copy_cell c m).1 in
    Copied-cons m c h cells (copy_cells cells m') (map (read m) cells) (
      rw (← read_after_copy m c h cells hs)
        (copy_cells_lem cells m' (IsBelow-after_copy m c h cells hs)))

dedup_cells_lem :
    (seen : List (ℤ × Bool)) (cells : List Cell) (m : Memory)
    → All (Points (IsBelow m)) cells
    → Copied m (dedup_cells seen cells m) (dedup seen (map (read m) cells))
unfolding dedup_cells dedup
dedup_cells_lem seen [] m h = Copied-nil m
dedup_cells_lem seen (c ∷ cells) m (h, hs) = elim (Bool-cases (is_seen c.id seen)) [
  | inl e ↦ rw e (dedup_cells_lem seen cells m hs)
  | inr e ↦
      let m' = (copy_cell c m).1 in
      let seen' = insert c.id true seen in
      rw (e, copy_quota_lem (read m c))
        (Copied-cons m c h cells (dedup_cells seen' cells m') (dedup seen' (map (read m) cells)) (
          rw (← read_after_copy m c h cells hs)
            (dedup_cells_lem seen' cells m' (IsBelow-after_copy m c h cells hs))))
]

-- A slice of its own that holds the value: it and what its elements point at are fresh.
pub record Placed (m : Memory) (out : Address × Memory) (value : List SubQuota) : Type 0 where
  pub extends : Extends m out.1
  pub fresh : IsFresh m out.1 out.0
  pub points : All (Points (IsFresh m out.1)) (out.1.slices out.0)
  pub reads : read_slice out.1 out.0 ≡ value

new_slice_lem :
    (m m' : Memory) (cells : List Cell) (value : List SubQuota)
    → Extends m m'
    → All (Points (IsFresh m m')) cells
    → map (read m') cells ≡ value
    → Placed m (m'.next, new_slice cells m') value
new_slice_lem m m' cells value e f r =
    let here = (==_iff m'.next m'.next).1 refl in
    record {
      extends = Extends-trans e (new_slice-Extends m' cells);
      fresh = omega (arith, e.grows);
      points = rw here (
          All-Points-imp (IsFresh m m') (IsFresh m (new_slice cells m'))
            (λ p (h : IsFresh m m' p). omega arith) cells f);
      reads = rw here r;
    }

pub copied_slice_lem :
    (cells : List Cell) (m : Memory)
    → All (Points (IsBelow m)) cells
    → let out = copy_cells cells m in
      Placed m (out.1.next, new_slice out.0 out.1) (map (read m) cells)
copied_slice_lem cells m h =
    let k = copy_cells_lem cells m h in
    new_slice_lem m (copy_cells cells m).1 (copy_cells cells m).0 (map (read m) cells) k.extends
      k.fresh k.reads

pub prepare_slice_lem :
    (p : Address) (m : Memory)
    → All (Points (IsBelow m)) (m.slices p)
    → Placed m (prepare_slice p m) (prepare (read_slice m p))
unfolding prepare_slice prepare sort_for_deduction
prepare_slice_lem p m h =
    let out = dedup_cells [] (m.slices p) m in
    let k = dedup_cells_lem [] (m.slices p) m h in
    let sorted = sort_stable (less_cells out.1) out.0 in
    new_slice_lem m out.1 sorted (sort_stable less (dedup [] (read_slice m p))) k.extends
      ((All-sort_stable (less_cells out.1) (Points (IsFresh m out.1)) out.0).1 k.fresh)
      (rw (← k.reads) (map-sort_stable less (read out.1) out.0))
