-- ===== src/Metering/Memory.antt =====
-- internal/metering/ladder.go with its slices and pointers: the methods of the ladder over a memory
-- that they share with their callers. A slice is the address of its elements, a nil slice one of no
-- elements. A loop that fills or changes one slice writes it once, with its final elements: nobody
-- else reads the slice meanwhile, since the ladder holds its lock.
pub mod Frames
pub mod Copies
pub mod Separation
pub mod Installs
pub mod Edits
pub mod Changes
pub mod Callers
pub mod CallerSteps
pub mod Isolation
mod Tests
use mathlib.Core.Option
use Prim.Native.Nat.{ℕ, suc}
use lumi_panel.Base.{
  Bool, true, false, Option, none, some, List, [], ◌∷◌, map, ℤ, pos, leb_ℤ, ◌==◌, ◌==ℤ◌,
  if◌then◌else◌,
}
use lumi_panel.Base.Word.{add64}
use lumi_panel.Base.Assoc.{lookup, insert, delete, map_values}
use lumi_panel.Base.Sort.{sort_stable}
use lumi_panel.Time.{Instant}
use lumi_panel.Domain.Quota.{SubKind, SubQuota, LedgerRow, overflow_subscription_id, less}
use lumi_panel.Domain.Quota
use lumi_panel.Domain.Reset.{align_bucket, counts_toward_current_period}
use lumi_panel.Metering.Ladder.{QuotaLadder, is_seen, known_counters}

abbrev pub Address : Type 0
Address = ℕ

-- A `SubQuota` as it lies in memory: the timestamps are pointers.
pub record Cell : Type 0 where
  pub id : ℤ
  pub kind : SubKind
  pub transfer_bytes : ℤ
  pub used_bytes : ℤ
  pub expired_at : Option Address
  pub last_reset_at : Option Address
  pub reset_epoch : ℤ

-- Every address below `next` has been given out, and none from it on.
pub record Memory : Type 0 where
  pub next : Address
  pub times : Address → Instant
  pub slices : Address → List Cell

abbrev pub update {ℓ} : {A : Type ℓ} → Address → A → (Address → A) → Address → A
update p v f q = if p == q then v else f q

abbrev pub write_time : Address → Instant → Memory → Memory
write_time p t m = record m { times = update p t m.times }

abbrev pub write_slice : Address → List Cell → Memory → Memory
write_slice p cells m = record m { slices = update p cells m.slices }

-- A fresh variable or slice stands at the address that was `next`.
abbrev pub new_time : Instant → Memory → Memory
new_time t m = record m { next = suc m.next; times = update m.next t m.times }

abbrev pub new_slice : List Cell → Memory → Memory
new_slice cells m = record m { next = suc m.next; slices = update m.next cells m.slices }

abbrev pub read_time : Memory → Option Address → Option Instant
read_time m p = Option.map m.times p

-- The `SubQuota` that a cell stands for.
abbrev pub read : Memory → Cell → SubQuota
read m c = record {
  id = c.id;
  kind = c.kind;
  transfer_bytes = c.transfer_bytes;
  used_bytes = c.used_bytes;
  expired_at = read_time m c.expired_at;
  last_reset_at = read_time m c.last_reset_at;
  reset_epoch = c.reset_epoch;
}

abbrev pub read_slice : Memory → Address → List SubQuota
read_slice m p = map (read m) (m.slices p)

-- One `if` of `copyQuota`: `t := *p; p = &t`.
unfoldable pub copy_time : Option Address → Memory → Option Address × Memory
copy_time none m = (none, m)
copy_time (some p) m = (some m.next, new_time (m.times p) m)

unfoldable pub copy_cell : Cell → Memory → Cell × Memory
unfolding copy_time
copy_cell c m =
    let (expired_at, m') = copy_time c.expired_at m in
    let (last_reset_at, m'') = copy_time c.last_reset_at m' in
    (record c { expired_at = expired_at; last_reset_at = last_reset_at }, m'')

-- The loop of `prepare`, from the first entry on.
unfoldable pub dedup_cells : List (ℤ × Bool) → List Cell → Memory → List Cell × Memory
unfolding is_seen insert copy_cell
dedup_cells seen [] m = ([], m)
dedup_cells seen (c ∷ cells) m =
    let skip = dedup_cells seen cells m in
    let copy = copy_cell c m in
    let rest = dedup_cells (insert c.id true seen) cells copy.1 in
    if is_seen c.id seen then skip else (copy.0 ∷ rest.0, rest.1)

-- The comparator of `SortForDeduction` follows the pointers to the expiries.
abbrev pub less_cells : Memory → Cell → Cell → Bool
less_cells m a b = less (read m a) (read m b)

-- The result is a new slice, at the first address that is free after the copies.
unfoldable pub prepare_slice : Address → Memory → Address × Memory
unfolding dedup_cells sort_stable
prepare_slice p m =
    let (out, m') = dedup_cells [] (m.slices p) m in
    (m'.next, new_slice (sort_stable (less_cells m') out) m')

-- The loop of `Snapshot`.
unfoldable pub copy_cells : List Cell → Memory → List Cell × Memory
unfolding copy_cell
copy_cells [] m = ([], m)
copy_cells (c ∷ cells) m =
    let (copy, m') = copy_cell c m in let (rest, m'') = copy_cells cells m' in (copy ∷ rest, m'')

-- The ladder, its map from a user to the slice held for it, and the memory.
pub record Store : Type 0 where
  pub memory : Memory
  pub ladders : List (ℤ × Address)

-- `l.ladders[userID]`.
unfoldable pub cells_of : ℤ → Store → List Cell
unfolding lookup
cells_of user s = elim (lookup user s.ladders) [ none ↦ [] | some p ↦ s.memory.slices p ]

unfoldable pub rebuild : ℤ → Address → Store → Store
unfolding prepare_slice insert
rebuild user p s =
    let (next, m) = prepare_slice p s.memory in
    record { memory = m; ladders = insert user next s.ladders }

unfoldable pub keep_cell : List (ℤ × ℤ) → Cell → Cell
unfolding lookup
keep_cell known c = elim (lookup c.id known) [
  | none ↦ c
  | some used ↦ record c { used_bytes = used }
]

unfoldable pub sync : ℤ → Address → Store → Store
unfolding cells_of known_counters prepare_slice keep_cell insert
sync user p s =
    let known = known_counters (map (read s.memory) (cells_of user s)) [] in
    let (next, m) = prepare_slice p s.memory in
    record {
      memory = write_slice next (map (keep_cell known) (m.slices next)) m;
      ladders = insert user next s.ladders;
    }

unfoldable pub drop : ℤ → Store → Store
unfolding delete
drop user s = record s { ladders = delete user s.ladders }

-- The caller gets the address of a new slice.
unfoldable pub snapshot : ℤ → Store → Address × Store
unfolding cells_of copy_cells
snapshot user s =
    let (copies, m) = copy_cells (cells_of user s) s.memory in
    (m.next, record s { memory = new_slice copies m })

-- The inner loop of `Attribute`.
unfoldable pub charge_cell : Memory → Instant → List Cell → LedgerRow → List Cell
charge_cell m bucket_at [] r = []
charge_cell m bucket_at (c ∷ cells) r =
    if c.id ==ℤ r.subscription_id
    then (if counts_toward_current_period bucket_at (read_time m c.last_reset_at)
        then record c { used_bytes = add64 c.used_bytes r.billed }
        else c)
      ∷ cells
    else c ∷ charge_cell m bucket_at cells r

unfoldable pub charge_cells : Memory → Instant → List Cell → List LedgerRow → List Cell
unfolding charge_cell
charge_cells m bucket_at cells [] = cells
charge_cells m bucket_at cells (r ∷ rows) =
    charge_cells m bucket_at
      (if r.subscription_id ==ℤ overflow_subscription_id
        then cells
        else charge_cell m bucket_at cells r)
      rows

unfoldable pub attribute : ℤ → ℤ → Instant → Store → Store × List LedgerRow
unfolding lookup charge_cells
attribute user billed bucket_at s =
    if leb_ℤ billed (pos 0) then (s, []) else elim (lookup user s.ladders) [
      | none ↦ (s, record { subscription_id = overflow_subscription_id; billed = billed } ∷ [])
      | some p ↦
          let m = s.memory in
          let rows = Quota.attribute billed (read_slice m p) bucket_at in
          (record s { memory = write_slice p (charge_cells m bucket_at (m.slices p) rows) m }, rows)
    ]

-- The loop of `Reconcile` and `Reset`.
unfoldable pub change_cell : (Cell → Cell) → ℤ → List Cell → Bool × List Cell
change_cell f id [] = (false, [])
change_cell f id (c ∷ cells) =
    let (found, rest) = change_cell f id cells in
    if c.id ==ℤ id then (true, f c ∷ cells) else (found, c ∷ rest)

abbrev pub set_cell : ℤ → Cell → Cell
set_cell used_bytes c = record c { used_bytes = used_bytes }

unfoldable pub reconcile : ℤ → ℤ → ℤ → Store → Store × Bool
unfolding lookup change_cell
reconcile user id used_bytes s = elim (lookup user s.ladders) [
  | none ↦ (s, false)
  | some p ↦
      let (found, cells) = change_cell (set_cell used_bytes) id (s.memory.slices p) in
      (record s { memory = write_slice p cells s.memory }, found)
]

abbrev pub restart_cell : ℤ → Address → Cell → Cell
restart_cell epoch aligned c = record c {
  used_bytes = pos 0;
  reset_epoch = epoch;
  last_reset_at = some aligned;
}

-- The variable `aligned` is made when the subscription is found, and its address is kept.
unfoldable pub reset : ℤ → ℤ → ℤ → Instant → Store → Store × Bool
unfolding lookup change_cell align_bucket
reset user id epoch reset_at s = elim (lookup user s.ladders) [
  | none ↦ (s, false)
  | some p ↦
      let m = s.memory in
      let (found, cells) = change_cell (restart_cell epoch m.next) id (m.slices p) in
      if found
      then (record s { memory = write_slice p cells (new_time (align_bucket reset_at) m) }, true)
      else (s, false)
]

-- What the ladder in memory stands for.
abbrev pub value_of : Store → QuotaLadder
value_of s = record { ladders = map_values (read_slice s.memory) s.ladders }
