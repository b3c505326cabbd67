-- ===== src/Metering/Ladder.antt =====
-- internal/metering/ladder.go: the in-memory authority on what each subscription has left. Each
-- method holds the lock for its whole body, so a method is one step on the state, and concurrent
-- callers are a sequence of steps. Slices and pointers are values here; Metering/Memory has
-- them at addresses.
pub mod Prepare
pub mod Keys
pub mod Counters
pub mod Charge
pub mod Conserve
pub mod Steps
pub mod Effects
pub mod Syncing
pub mod Flush
pub mod Flushes
pub mod Late
pub mod Monotone
pub mod Calls
pub mod Abstract
pub mod Refinement
mod Traces
mod Tests
use mathlib.Core.Option
use lumi_panel.Base.{
  ℕ, Bool, true, false, Option, none, some, List, [], ◌∷◌, map, ℤ, pos, leb_ℤ, ◌==ℤ◌, if◌then◌else◌,
}
use lumi_panel.Base.Word.{add64}
use lumi_panel.Base.Assoc.{lookup, insert, delete}
use lumi_panel.Time.{Instant}
use lumi_panel.Domain.Quota.{SubQuota, LedgerRow, overflow_subscription_id, sort_for_deduction}
use lumi_panel.Domain.Quota
use lumi_panel.Domain.Reset.{align_bucket, counts_toward_current_period}

pub record QuotaLadder : Type 0 where
  pub ladders : List (ℤ × List SubQuota)

abbrev pub new_quota_ladder : QuotaLadder
new_quota_ladder = record { ladders = [] }

-- `l.ladders[userID]`: a missing key reads as the nil slice.
unfoldable pub ladder_of : ℤ → QuotaLadder → List SubQuota
unfolding lookup
ladder_of user l = elim (lookup user l.ladders) [ none ↦ [] | some subs ↦ subs ]

unfoldable pub copy_quota : SubQuota → SubQuota
copy_quota s = record s {
  expired_at = Option.map (λ t. t) s.expired_at;
  last_reset_at = Option.map (λ t. t) s.last_reset_at;
}

-- `m[k]` of a map to Booleans.
unfoldable pub is_seen : ℤ → List (ℤ × Bool) → Bool
unfolding lookup
is_seen k seen = elim (lookup k seen) [ none ↦ false | some b ↦ b ]

-- The loop of `prepare`, from the first entry on: `seen` holds the IDs before it.
unfoldable pub dedup : List (ℤ × Bool) → List SubQuota → List SubQuota
unfolding is_seen insert copy_quota
dedup seen [] = []
dedup seen (s ∷ subs) =
    let skip = dedup seen subs in
    let keep = copy_quota s ∷ dedup (insert s.id true seen) subs in
    if is_seen s.id seen then skip else keep

unfoldable pub prepare : List SubQuota → List SubQuota
unfolding dedup sort_for_deduction
prepare subs = sort_for_deduction (dedup [] subs)

unfoldable pub rebuild : ℤ → List SubQuota → QuotaLadder → QuotaLadder
unfolding prepare insert
rebuild user subs l = record { ladders = insert user (prepare subs) l.ladders }

-- The map `known` of `Sync`; a later entry with the same ID would overwrite an earlier one.
unfoldable pub known_counters : List SubQuota → List (ℤ × ℤ) → List (ℤ × ℤ)
unfolding insert
known_counters [] known = known
known_counters (s ∷ subs) known = known_counters subs (insert s.id s.used_bytes known)

unfoldable pub keep_counter : List (ℤ × ℤ) → SubQuota → SubQuota
unfolding lookup
keep_counter known s = elim (lookup s.id known) [
  | none ↦ s
  | some used ↦ record s { used_bytes = used }
]

unfoldable pub sync : ℤ → List SubQuota → QuotaLadder → QuotaLadder
unfolding ladder_of known_counters keep_counter prepare insert
sync user subs l =
    let known = known_counters (ladder_of user l) [] in
    record { ladders = insert user (map (keep_counter known) (prepare subs)) l.ladders }

unfoldable pub drop : ℤ → QuotaLadder → QuotaLadder
unfolding delete
drop user l = record { ladders = delete user l.ladders }

unfoldable pub snapshot : ℤ → QuotaLadder → List SubQuota
unfolding ladder_of copy_quota
snapshot user l = map copy_quota (ladder_of user l)

-- Go's order of a map's keys is arbitrary; here they come in the order of their insertion.
unfoldable pub users : QuotaLadder → List ℤ
users l = map (λ e. e.0) l.ladders

-- The inner loop of `Attribute`: it stops at the first subscription with the ID of the row.
unfoldable pub charge_row : Instant → List SubQuota → LedgerRow → List SubQuota
charge_row bucket_at [] r = []
charge_row bucket_at (s ∷ subs) r =
    if s.id ==ℤ r.subscription_id
    then (if counts_toward_current_period bucket_at s.last_reset_at
        then record s { used_bytes = add64 s.used_bytes r.billed }
        else s)
      ∷ subs
    else s ∷ charge_row bucket_at subs r

unfoldable pub charge_rows : Instant → List SubQuota → List LedgerRow → List SubQuota
unfolding charge_row
charge_rows bucket_at subs [] = subs
charge_rows bucket_at subs (r ∷ rows) =
    charge_rows bucket_at
      (if r.subscription_id ==ℤ overflow_subscription_id then subs else charge_row bucket_at subs r)
      rows

unfoldable pub attribute : ℤ → ℤ → Instant → QuotaLadder → QuotaLadder × List LedgerRow
unfolding lookup insert charge_rows
attribute user billed bucket_at l =
    if leb_ℤ billed (pos 0) then (l, []) else elim (lookup user l.ladders) [
      | none ↦ (l, record { subscription_id = overflow_subscription_id; billed = billed } ∷ [])
      | some subs ↦
          let rows = Quota.attribute billed subs bucket_at in
          (record { ladders = insert user (charge_rows bucket_at subs rows) l.ladders }, rows)
    ]

-- The loop of `Reconcile` and `Reset`: the first subscription with the ID is changed.
unfoldable pub change_first : (SubQuota → SubQuota) → ℤ → List SubQuota → Bool × List SubQuota
change_first f id [] = (false, [])
change_first f id (s ∷ subs) =
    let (found, rest) = change_first f id subs in
    if s.id ==ℤ id then (true, f s ∷ subs) else (found, s ∷ rest)

-- A change in place of the slice that the map holds; of a missing user it changes nothing.
unfoldable pub change_user : (SubQuota → SubQuota) → ℤ → ℤ → QuotaLadder → QuotaLadder × Bool
unfolding lookup insert change_first
change_user f user id l = elim (lookup user l.ladders) [
  | none ↦ (l, false)
  | some subs ↦
      let (found, subs') = change_first f id subs in
      (record { ladders = insert user subs' l.ladders }, found)
]

abbrev pub set_used : ℤ → SubQuota → SubQuota
set_used used_bytes s = record s { used_bytes = used_bytes }

unfoldable pub reconcile : ℤ → ℤ → ℤ → QuotaLadder → QuotaLadder × Bool
unfolding change_user
reconcile user id used_bytes = change_user (set_used used_bytes) user id

unfoldable pub restart : ℤ → Instant → SubQuota → SubQuota
unfolding align_bucket
restart epoch reset_at s = record s {
  used_bytes = pos 0;
  reset_epoch = epoch;
  last_reset_at = some (align_bucket reset_at);
}

unfoldable pub reset : ℤ → ℤ → ℤ → Instant → QuotaLadder → QuotaLadder × Bool
unfolding change_user restart
reset user id epoch reset_at = change_user (restart epoch reset_at) user id
