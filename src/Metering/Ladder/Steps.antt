-- ===== src/Metering/Ladder/Steps.antt =====
-- The methods of internal/metering/ladder.go as steps, and the invariant that each keeps.
use lumi_panel.Base.{
  refl, arith, Bool-cases, Option-cases, inl, inr, List, [], ◌∷◌, map, ℤ, pos, leb_ℤ, All-map,
}
use lumi_panel.Base.Word.{IsInt64}
use lumi_panel.Base.Assoc.{lookup, Every, Every-insert, Every-delete, Every-lookup}
use lumi_panel.Time.{Instant}
use lumi_panel.Domain.Quota.{SubQuota, LedgerRow, overflow_subscription_id}
use lumi_panel.Domain.Quota
use lumi_panel.Domain.Quota.Apply.{HasDistinctIds, HasCounters}
use lumi_panel.Metering.Ladder.{
  QuotaLadder, new_quota_ladder, ladder_of, known_counters, keep_counter, prepare, rebuild, sync,
  drop, attribute, change_user, reconcile, reset, restart,
}
use lumi_panel.Metering.Ladder.Prepare.{prepare_lem, All-prepare}
use lumi_panel.Metering.Ladder.Counters.{
  known_counters-IsInt64, keep_counter-SameKey, keep_counter-IsInt64, charge_rows-HasCounters,
  change_first-HasCounters,
}
use lumi_panel.Metering.Ladder.Keys.{
  IsOrdered, SameKey, SameKeys, SameKeys-IsOrdered, SameKeys-HasDistinctIds, prepare-IsOrdered,
  charge_rows-SameKeys, change_first-SameKeys,
}

-- What a user's entry always is: distinct IDs, in deduction order, with int64 counters.
pub record IsReady (subs : List SubQuota) : Type 0 where
  pub distinct : HasDistinctIds subs
  pub ordered : IsOrdered subs
  pub counters : HasCounters subs

abbrev pub IsWellFormed : QuotaLadder → Type 0
IsWellFormed l = Every IsReady l.ladders

-- A call of a method that changes the ladder. The numbers that come in are int64 values.
pub data Step : QuotaLadder → QuotaLadder → Type 0 where
  rebuilds :
      {l : QuotaLadder} (user : ℤ) (subs : List SubQuota)
      → HasCounters subs
      → Step l (rebuild user subs l)
  syncs :
      {l : QuotaLadder} (user : ℤ) (subs : List SubQuota)
      → HasCounters subs
      → Step l (sync user subs l)
  drops : {l : QuotaLadder} (user : ℤ) → Step l (drop user l)
  attributes :
      {l : QuotaLadder} (user billed : ℤ) (bucket_at : Instant)
      → Step l (attribute user billed bucket_at l).0
  reconciles :
      {l : QuotaLadder} (user id used : ℤ) → IsInt64 used → Step l (reconcile user id used l).0
  resets :
      {l : QuotaLadder} (user id epoch : ℤ) (reset_at : Instant)
      → Step l (reset user id epoch reset_at l).0

-- The states that some sequence of calls leads to.
pub data Reach : QuotaLadder → Type 0 where
  start : Reach new_quota_ladder
  next : {l m : QuotaLadder} → Reach l → Step l m → Reach m

IsReady-of_SameKeys :
    (xs ys : List SubQuota) → IsReady xs → SameKeys xs ys → HasCounters ys → IsReady ys
IsReady-of_SameKeys xs ys r k c = record {
  distinct = SameKeys-HasDistinctIds xs ys k r.distinct;
  ordered = SameKeys-IsOrdered xs ys k r.ordered;
  counters = c;
}

prepare-IsReady : (subs : List SubQuota) → HasCounters subs → IsReady (prepare subs)
prepare-IsReady subs c = record {
  distinct = (prepare_lem subs).0;
  ordered = prepare-IsOrdered subs;
  counters = All-prepare (λ s. IsInt64 s.used_bytes) subs c;
}

-- A user's entry, or the empty one.
pub ladder_of-IsReady : (user : ℤ) (l : QuotaLadder) → IsWellFormed l → IsReady (ladder_of user l)
unfolding ladder_of
ladder_of-IsReady user l w = elim (Option-cases (lookup user l.ladders)) [
  | inl e ↦ rw (e, ladder_of) (record { distinct = tt; ordered = tt; counters = tt })
  | inr (subs, e) ↦ rw (e, ladder_of) (Every-lookup IsReady user l.ladders w e)
]

map-SameKeys :
    (f : SubQuota → SubQuota)
    → ((s : SubQuota) → SameKey s (f s))
    → (subs : List SubQuota) → SameKeys subs (map f subs)
map-SameKeys f keeps [] = tt
map-SameKeys f keeps (s ∷ subs) = (keeps s, map-SameKeys f keeps subs)

change_user-IsWellFormed :
    (f : SubQuota → SubQuota)
    → ((s : SubQuota) → SameKey s (f s))
    → ((s : SubQuota) → IsInt64 (f s).used_bytes)
    → (user id : ℤ) (l : QuotaLadder) → IsWellFormed l
    → IsWellFormed (change_user f user id l).0
unfolding change_user
change_user-IsWellFormed f keeps g user id l w = elim (Option-cases (lookup user l.ladders)) [
  | inl e ↦ rw (e, change_user) w
  | inr (subs, e) ↦
      let r = Every-lookup IsReady user l.ladders w e in
      rw (e, change_user)
        (Every-insert IsReady user _ l.ladders
          (IsReady-of_SameKeys subs _ r (change_first-SameKeys f keeps id subs)
            (change_first-HasCounters f g id subs r.counters))
          w)
]

attribute-IsWellFormed :
    (user billed : ℤ) (bucket_at : Instant) (l : QuotaLadder)
    → IsWellFormed l
    → IsWellFormed (attribute user billed bucket_at l).0
unfolding attribute
attribute-IsWellFormed user billed bucket_at l w = elim (Bool-cases (leb_ℤ billed (pos 0))) [
  | inl q ↦ rw q w
  | inr q ↦ elim (Option-cases (lookup user l.ladders)) [
    | inl e ↦ rw (q, e) w
    | inr (subs, e) ↦
        let r = Every-lookup IsReady user l.ladders w e in
        let rows = Quota.attribute billed subs bucket_at in
        rw (q, e)
          (Every-insert IsReady user _ l.ladders
            (IsReady-of_SameKeys subs _ r (charge_rows-SameKeys bucket_at subs rows)
              (charge_rows-HasCounters bucket_at rows subs r.counters))
            w)
  ]
]

-- Each method keeps every entry ready.
pub Step-IsWellFormed : {l m : QuotaLadder} → Step l m → IsWellFormed l → IsWellFormed m
unfolding rebuild sync drop reconcile reset restart
Step-IsWellFormed (rebuilds {l} user subs c) w =
    Every-insert IsReady user (prepare subs) l.ladders (prepare-IsReady subs c) w
Step-IsWellFormed (syncs {l} user subs c) w =
    let known = known_counters (ladder_of user l) [] in
    let known_fit =
      known_counters-IsInt64 (ladder_of user l) [] (ladder_of-IsReady user l w).counters tt in
    let r = prepare-IsReady subs c in
    Every-insert IsReady user _ l.ladders
      (IsReady-of_SameKeys (prepare subs) _ r
        (map-SameKeys (keep_counter known) (keep_counter-SameKey known) (prepare subs))
        (All-map (λ s. IsInt64 s.used_bytes) (λ s. IsInt64 s.used_bytes) (keep_counter known)
          (λ s h. keep_counter-IsInt64 known s known_fit h) (prepare subs) r.counters))
      w
Step-IsWellFormed (drops {l} user) w = Every-delete IsReady user l.ladders w
Step-IsWellFormed (attributes {l} user billed bucket_at) w =
    attribute-IsWellFormed user billed bucket_at l w
Step-IsWellFormed (reconciles {l} user id used fits) w =
    change_user-IsWellFormed _ (λ s. record { id = refl; kind = refl; expired_at = refl })
      (λ s. fits) user id l w
Step-IsWellFormed (resets {l} user id epoch reset_at) w =
    change_user-IsWellFormed (restart epoch reset_at)
      (λ s. record { id = refl; kind = refl; expired_at = refl })
      (λ s. record { below = omega arith; above = omega arith }) user id l w

-- After any sequence of calls, each user's entry has distinct IDs, stands in deduction order and
-- holds int64 counters.
pub Reach-IsWellFormed : {l : QuotaLadder} → Reach l → IsWellFormed l
Reach-IsWellFormed start = tt
Reach-IsWellFormed (next r step) = Step-IsWellFormed step (Reach-IsWellFormed r)
