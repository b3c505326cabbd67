-- ===== src/Metering/Memory/Changes.antt =====
-- `Attribute`, `Reconcile` and `Reset` of internal/metering/ladder.go over memory: the changes in
-- place of a slice that the ladder holds.
use lumi_panel.Base.{
  ◌≡◌, ◌∙◌, ap, refl, sym, arith, Bool, true, false, Bool-cases, Option-cases, inl, inr, none, some,
  List, map, ℤ, pos, leb_ℤ, ◌==◌, All, ==_iff, if◌then◌else◌,
}
use lumi_panel.Base.Assoc.{
  lookup, insert, insert-same, Every-imp, Every-lookup, insert-map_values_at,
}
use lumi_panel.Time.{Instant}
use lumi_panel.Domain.Quota.{SubQuota, LedgerRow, overflow_subscription_id}
use lumi_panel.Domain.Quota
use lumi_panel.Domain.Reset.{align_bucket}
use lumi_panel.Metering.Ladder
use lumi_panel.Metering.Ladder.{
  QuotaLadder, charge_row, charge_rows, change_first, set_used, restart, change_user,
}
use lumi_panel.Metering.Memory.{
  Address, Cell, Store, write_slice, new_time, read, read_slice, charge_cells, attribute,
  change_cell, set_cell, reconcile, restart_cell, reset, value_of,
}
use lumi_panel.Metering.Memory.Frames.{Points}
use lumi_panel.Metering.Memory.Separation.{
  Held, IsHidden, Owns, IsSeparate, IsSound, IsSound-same, fresh-IsHidden, Owns-Extends,
  read_slice-Extends, values-Extends,
}
use lumi_panel.Metering.Memory.Copies.{new_time-Extends}
use lumi_panel.Metering.Memory.Installs.{alloc_lem, looked_up}
use lumi_panel.Metering.Memory.Edits.{
  charge_cells-reads, charge_cells-Points, change_cell-reads, change_cell-Points, read-restart_cell,
  change_first-not_found,
}

IsSound-trans :
    {h : Held} {s t u : Store} {l : QuotaLadder}
    → IsSound h s t (value_of s)
    → IsSound h t u l
    → IsSound h s u l
IsSound-trans a b = record {
  separate = b.separate;
  keeps = record {
    grows = omega (arith, a.keeps.grows, b.keeps.grows);
    times = λ p e. b.keeps.times p e ∙ a.keeps.times p e;
    slices = λ p e. b.keeps.slices p e ∙ a.keeps.slices p e;
  };
  value = b.value;
}

module _ (h : Held) (s : Store) (sep : IsSeparate h s) (user : ℤ) (p : Address)
    (e : lookup user s.ladders ≡ some p) where
  pub owned_slice : Owns h s.memory p
  owned_slice = Every-lookup (Owns h s.memory) user s.ladders sep.owned e

  -- Other elements in the slice of one user: the slices of the others, and what the callers have,
  -- are as they were.
  write_lem :
      (cells : List Cell)
      → All (Points (IsHidden h s.memory)) cells
      → IsSound h s
          (record s { memory = write_slice p cells s.memory })
          (record { ladders = insert user (map (read s.memory) cells) (value_of s).ladders })
  write_lem cells hidden =
      let m = s.memory in
      let m' = write_slice p cells m in
      let here = (==_iff p p).1 refl in
      let kept = λ (q : Address) (k : h.slices q ≡ true).
        elim (Bool-cases (p == q)) as (λ _. m'.slices q ≡ m.slices q) [
          | inl d ↦ absurd (let pq = (==_iff p q).0 d in ground (arith, owned_slice, pq, k))
          | inr d ↦ rw d refl
        ] in
      record {
        separate = record {
          owned =
              Every-imp (Owns h m) (Owns h m')
                (λ q (o : Owns h m q). elim (Bool-cases (p == q)) as (λ _. Owns h m' q) [
                  | inl d ↦ (o.0, o.1, rw d hidden)
                  | inr d ↦ (o.0, o.1, rw d o.2)
                ])
                s.ladders sep.owned;
          apart = sep.apart;
          times_below = sep.times_below;
          slices_closed = λ q k. let (lt, pts) = sep.slices_closed q k in (lt, rw (kept q k) pts);
        };
        keeps = record { grows = omega arith; times = λ q k. refl; slices = kept };
        value =
            ap (λ l. record { ladders = l })
              (sym (
                rw here at (
                  insert-map_values_at (read_slice m) (read_slice m') user p s.ladders e sep.apart
                    (λ q ne. ground (arith, ==_iff p q)))));
      }

module _ (h : Held) (s : Store) (sep : IsSeparate h s) where
  pub attribute_lem :
      (user billed : ℤ) (bucket_at : Instant)
      → IsSound h s
          (attribute user billed bucket_at s).0
          (Ladder.attribute user billed bucket_at (value_of s)).0
        × ((attribute user billed bucket_at s).1
            ≡ (Ladder.attribute user billed bucket_at (value_of s)).1)
  unfolding attribute Ladder.attribute
  attribute_lem user billed bucket_at = elim (Bool-cases (leb_ℤ billed (pos 0))) [
    | inl e ↦ rw e (IsSound-same sep, refl)
    | inr e ↦ elim (Option-cases (lookup user s.ladders)) [
      | inl n ↦ rw (e, looked_up h s sep user none n, n) (IsSound-same sep, refl)
      | inr (p, n) ↦
          let m = s.memory in
          let dues = Quota.attribute billed (read_slice m p) bucket_at in
          rw
            (
              e,
              looked_up h s sep user (some p) n,
              n,
              ← charge_cells-reads m bucket_at (m.slices p) dues,
            )
            (
              write_lem h s sep user p n (charge_cells m bucket_at (m.slices p) dues) (
                  charge_cells-Points m bucket_at (IsHidden h m) (m.slices p) dues
                    (owned_slice h s sep user p n).2),
              refl,
            )
    ]
  ]

  pub reconcile_lem :
      (user id used : ℤ)
      → IsSound h s (reconcile user id used s).0 (Ladder.reconcile user id used (value_of s)).0
        × ((reconcile user id used s).1 ≡ (Ladder.reconcile user id used (value_of s)).1)
  unfolding reconcile Ladder.reconcile change_user
  reconcile_lem user id used = elim (Option-cases (lookup user s.ladders)) [
    | inl n ↦ rw (looked_up h s sep user none n, change_user, n, reconcile) (IsSound-same sep, refl)
    | inr (p, n) ↦
        let m = s.memory in
        let (cells, found) =
          change_cell-reads m (set_cell used) (set_used used) (λ c. refl) id (m.slices p) in
        rw (looked_up h s sep user (some p) n, change_user, n, reconcile, ← cells)
          (
            write_lem h s sep user p n (change_cell (set_cell used) id (m.slices p)).1 (
                change_cell-Points (IsHidden h m) (set_cell used) (λ c k. k) id (m.slices p)
                  (owned_slice h s sep user p n).2),
            found,
          )
  ]

  restarted :
      (user : ℤ) (p : Address)
      → lookup user s.ladders ≡ some p
      → (id epoch : ℤ) (reset_at : Instant)
      → let m = s.memory in
        let (found, cells) = change_cell (restart_cell epoch m.next) id (m.slices p) in
        let out : Store × Bool =
          if found
          then (
            record s { memory = write_slice p cells (new_time (align_bucket reset_at) m) },
            true,
          )
          else (s, false) in
        let (found', subs) = change_first (restart epoch reset_at) id (read_slice m p) in
        IsSound h s out.0 (record { ladders = insert user subs (value_of s).ladders })
        × (out.1 ≡ found')
  restarted user p n id epoch reset_at =
      let m = s.memory in
      let m' = new_time (align_bucket reset_at) m in
      let f = restart_cell epoch m.next in
      let g = restart epoch reset_at in
      let grown = new_time-Extends m (align_bucket reset_at) in
      let kept = alloc_lem h s sep m' grown in
      let owned = owned_slice h s sep user p n in
      let before = read_slice-Extends h s sep m' grown p owned in
      let (cells, found) =
        change_cell-reads m' f g (read-restart_cell epoch reset_at m) id (m.slices p) in
      let found' : (change_cell f id (m.slices p)).0 ≡ (change_first g id (read_slice m p)).0 =
        rw before found in
      elim (Bool-cases (change_cell f id (m.slices p)).0) [
        | inl e ↦
            rw (e, values-Extends h s sep m' grown, before, ← cells)
              (
                IsSound-trans kept (
                    write_lem h (record s { memory = m' }) kept.separate user p n
                      (change_cell f id (m.slices p)).1
                      (change_cell-Points (IsHidden h m') f
                        (λ c k. (k.0, fresh-IsHidden h s sep m' m.next (omega arith))) id
                        (m.slices p) (Owns-Extends h s sep m' grown p owned).2)),
                sym e ∙ found,
              )
        | inr e ↦
            rw
              (
                e,
                change_first-not_found g id (read_slice m p) (sym found' ∙ e),
                insert-same user (read_slice m p) (value_of s).ladders
                    (looked_up h s sep user (some p) n),
              )
              (IsSound-same sep, sym e ∙ found')
      ]

  pub reset_lem :
      (user id epoch : ℤ) (reset_at : Instant)
      → IsSound h s
          (reset user id epoch reset_at s).0
          (Ladder.reset user id epoch reset_at (value_of s)).0
        × ((reset user id epoch reset_at s).1
            ≡ (Ladder.reset user id epoch reset_at (value_of s)).1)
  unfolding reset Ladder.reset change_user
  reset_lem user id epoch reset_at = elim (Option-cases (lookup user s.ladders)) [
    | inl n ↦ rw (looked_up h s sep user none n, change_user, n, reset) (IsSound-same sep, refl)
    | inr (p, n) ↦
        rw (looked_up h s sep user (some p) n, change_user, n, reset)
          (restarted user p n id epoch reset_at)
  ]
