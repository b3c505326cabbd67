-- ===== src/Metering/Memory/Installs.antt =====
-- `Rebuild`, `Sync`, `Drop` and `Snapshot` of internal/metering/ladder.go over memory: each makes
-- slices of its own or forgets one, and none writes to a slice that was there.
use mathlib.Core.Path.{fun_ext, ap₂}
use mathlib.Core.List.{map-id}
use mathlib.Core.Option
use lumi_panel.Base.{
  ◌≡◌, ◌≢◌, ◌∙◌, ap, refl, sym, arith, true, Option-cases, inl, inr, none, some, List, [], ◌∷◌, map,
  ℤ, All, All-map, ==_iff, Option,
}
use lumi_panel.Base.Assoc.{
  lookup, insert, Every-imp, Every-insert, Every-delete, AreApart-insert, AreApart-delete,
  Every-lookup, lookup-map_values, insert-map_values, delete-map_values,
}
use lumi_panel.Domain.Quota.{SubQuota}
use lumi_panel.Metering.Ladder
use lumi_panel.Metering.Ladder.{QuotaLadder, ladder_of, prepare, keep_counter, known_counters}
use lumi_panel.Metering.Ladder.Prepare.{copy_quota_lem}
use lumi_panel.Metering.Memory.{
  Address, Cell, Memory, Store, write_slice, read, read_slice, prepare_slice, cells_of, keep_cell,
  rebuild, sync, drop, snapshot, value_of,
}
use lumi_panel.Metering.Memory.Frames.{Points, IsBelow, IsFresh, Extends, All-Points-imp}
use lumi_panel.Metering.Memory.Copies.{Placed, prepare_slice_lem, copied_slice_lem}
use lumi_panel.Metering.Memory.Separation.{
  Held, IsHidden, Owns, IsSeparate, IsSound, fresh-IsHidden, fresh_slice, held_slice-IsBelow,
  Extends-Keeps, Owns-Extends, values-Extends,
}

keep_cell-Points :
    (P : Address → Type 0) (known : List (ℤ × ℤ)) (c : Cell)
    → Points P c
    → Points P (keep_cell known c)
unfolding keep_cell
keep_cell-Points P known c k = elim (Option-cases (lookup c.id known)) [
  | inl e ↦ rw (e, keep_cell) k
  | inr (used, e) ↦ rw (e, keep_cell) k
]

read-keep_cell :
    (m : Memory) (known : List (ℤ × ℤ)) (c : Cell)
    → read m (keep_cell known c) ≡ keep_counter known (read m c)
unfolding keep_cell keep_counter
read-keep_cell m known c = ground arith

reads-keep_cell :
    (m : Memory) (known : List (ℤ × ℤ)) (cells : List Cell)
    → map (read m) (map (keep_cell known) cells) ≡ map (keep_counter known) (map (read m) cells)
reads-keep_cell m known [] = refl
reads-keep_cell m known (c ∷ cells) =
    ap₂ (λ (s : SubQuota) (l : List SubQuota). s ∷ l) (read-keep_cell m known c)
      (reads-keep_cell m known cells)

Placed-keep :
    (known : List (ℤ × ℤ)) (m : Memory) (out : Address × Memory) (subs : List SubQuota)
    → Placed m out subs
    → Placed m
        (out.0, write_slice out.0 (map (keep_cell known) (out.1.slices out.0)) out.1)
        (map (keep_counter known) subs)
Placed-keep known m (p, m') subs k =
    let here = (==_iff p p).1 refl in
    record {
      extends = record {
        grows = k.extends.grows;
        times = k.extends.times;
        slices = λ q lt. ground (arith, k.extends.slices q lt, k.fresh);
      };
      fresh = k.fresh;
      points = rw here (
          All-map (Points (IsFresh m m')) (Points (IsFresh m m')) (keep_cell known)
            (keep_cell-Points (IsFresh m m') known) (m'.slices p) k.points);
      reads =
          rw here (reads-keep_cell m' known (m'.slices p) ∙ ap (map (keep_counter known)) k.reads);
    }

module _ (h : Held) (s : Store) (sep : IsSeparate h s) where
  -- Allocations alone leave everything as it is.
  pub alloc_lem :
      (m' : Memory) → Extends s.memory m' → IsSound h s (record s { memory = m' }) (value_of s)
  alloc_lem m' e = record {
    separate = record {
      owned =
          Every-imp (Owns h s.memory) (Owns h m') (Owns-Extends h s sep m' e) s.ladders sep.owned;
      apart = sep.apart;
      times_below = λ p k. omega (arith, sep.times_below p k, e.grows);
      slices_closed = λ p k.
          let (lt, pts) = sep.slices_closed p k in (omega (arith, e.grows), rw (e.slices p lt) pts);
    };
    keeps = Extends-Keeps h s sep m' e;
    value = ap (λ l. record { ladders = l }) (sym (values-Extends h s sep m' e));
  }

  -- A new slice of the ladder becomes a user's.
  install_lem :
      (user : ℤ) (out : Address × Memory) (subs : List SubQuota)
      → Placed s.memory out subs
      → IsSound h s
          (record { memory = out.1; ladders = insert user out.0 s.ladders })
          (record { ladders = insert user subs (value_of s).ladders })
  install_lem user (p, m') subs k =
      let (ge, lt) = k.fresh in
      let kept = alloc_lem m' k.extends in
      record {
        separate = record {
          owned =
              Every-insert (Owns h m') user p s.ladders
                (
                  lt,
                  fresh_slice h s sep m' p k.fresh,
                  All-Points-imp (IsFresh s.memory m') (IsHidden h m') (fresh-IsHidden h s sep m')
                      (m'.slices p) k.points,
                )
                kept.separate.owned;
          apart =
              AreApart-insert user p s.ladders
                (Every-imp (Owns h s.memory) (λ q. p ≢ q)
                  (λ q (o : Owns h s.memory q) d. absurd (omega (arith, o.0, d, ge))) s.ladders
                  sep.owned)
                sep.apart;
          times_below = kept.separate.times_below;
          slices_closed = kept.separate.slices_closed;
        };
        keeps = kept.keeps;
        value =
            ap (λ l. record { ladders = l })
              (rw (values-Extends h s sep m' k.extends, ← k.reads)
                (sym (insert-map_values (read_slice m') user p s.ladders)));
      }

  pub rebuild_lem :
      (user : ℤ) (p : Address)
      → h.slices p ≡ true
      → IsSound h s (rebuild user p s) (Ladder.rebuild user (read_slice s.memory p) (value_of s))
  unfolding rebuild Ladder.rebuild
  rebuild_lem user p held =
      install_lem user (prepare_slice p s.memory) (prepare (read_slice s.memory p))
        (prepare_slice_lem p s.memory (held_slice-IsBelow h s sep p held))

  pub looked_up :
      (user : ℤ) (o : Option Address)
      → lookup user s.ladders ≡ o
      → lookup user (value_of s).ladders ≡ Option.map (read_slice s.memory) o
  looked_up user o e =
      lookup-map_values (read_slice s.memory) user s.ladders
      ∙ ap (Option.map (read_slice s.memory)) e

  pub cells_of_lem :
      (user : ℤ) → map (read s.memory) (cells_of user s) ≡ ladder_of user (value_of s)
  unfolding cells_of ladder_of
  cells_of_lem user = elim (Option-cases (lookup user s.ladders)) [
    | inl e ↦ rw (looked_up user none e, ladder_of, e, cells_of) refl
    | inr (p, e) ↦ rw (looked_up user (some p) e, ladder_of, e, cells_of) refl
  ]

  pub drop_lem : (user : ℤ) → IsSound h s (drop user s) (Ladder.drop user (value_of s))
  unfolding drop Ladder.drop
  drop_lem user = record {
    separate = record {
      owned = Every-delete (Owns h s.memory) user s.ladders sep.owned;
      apart = AreApart-delete user s.ladders sep.apart;
      times_below = sep.times_below;
      slices_closed = sep.slices_closed;
    };
    keeps = record { grows = omega arith; times = λ p e. refl; slices = λ p e. refl };
    value =
        ap (λ l. record { ladders = l })
          (sym (delete-map_values (read_slice s.memory) user s.ladders));
  }

  -- The copied counters of `Sync` are written to the new slice before the ladder has it.
  pub sync_lem :
      (user : ℤ) (p : Address)
      → h.slices p ≡ true
      → IsSound h s (sync user p s) (Ladder.sync user (read_slice s.memory p) (value_of s))
  unfolding sync Ladder.sync
  sync_lem user p held =
      let known = known_counters (map (read s.memory) (cells_of user s)) [] in
      let out = prepare_slice p s.memory in
      rw (← cells_of_lem user) (
        install_lem user
          (out.0, write_slice out.0 (map (keep_cell known) (out.1.slices out.0)) out.1)
          (map (keep_counter known) (prepare (read_slice s.memory p)))
          (Placed-keep known s.memory out (prepare (read_slice s.memory p))
            (prepare_slice_lem p s.memory (held_slice-IsBelow h s sep p held))))

  cells_of-IsBelow : (user : ℤ) → All (Points (IsBelow s.memory)) (cells_of user s)
  unfolding cells_of
  cells_of-IsBelow user = elim (Option-cases (lookup user s.ladders)) [
    | inl e ↦ rw (e, cells_of) tt
    | inr (p, e) ↦
        rw (e, cells_of)
          (All-Points-imp (IsHidden h s.memory) (IsBelow s.memory) (λ q k. k.0) (s.memory.slices p)
            (Every-lookup (Owns h s.memory) user s.ladders sep.owned e).2)
  ]

  -- The slice that `Snapshot` returns holds the user's ladder, and it and its timestamps are new.
  pub snapshot_lem :
      (user : ℤ)
      → let (p, t) = snapshot user s in
        Placed s.memory (p, t.memory) (Ladder.snapshot user (value_of s))
  unfolding snapshot Ladder.snapshot
  snapshot_lem user =
      rw (fun_ext copy_quota_lem, map-id, ← cells_of_lem user)
        (copied_slice_lem (cells_of user s) s.memory (cells_of-IsBelow user))
