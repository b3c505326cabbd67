-- ===== src/Metering/Ladder/Refinement.antt =====
-- internal/metering/ladder.go does what Abstract asks of it.
use lumi_panel.Base.{
  ◌≡◌, ◌∙◌, ◌<◌, ◌^◌, inl, inr, refl, sym, ap, arith, true, false, Bool-cases, none, Option-cases,
  List, [], ◌∷◌, map, ℤ, pos, ◌<ℤ◌, leb_ℤ, pos_part, ◌==ℤ◌, if◌then◌else◌, All,
}
use lumi_panel.Base.Word.{IsInt64}
use lumi_panel.Base.Assoc.{lookup, lookup-delete}
use lumi_panel.Time.{Instant}
use lumi_panel.Domain.Quota.{SubQuota, LedgerRow, overflow_subscription_id}
use lumi_panel.Domain.Quota
use lumi_panel.Domain.Quota.Apply.{HasCounters}
use lumi_panel.Metering.Ladder.{
  QuotaLadder, new_quota_ladder, ladder_of, prepare, rebuild, drop, attribute, restart, snapshot,
  copy_quota,
}
use lumi_panel.Metering.Ladder.Prepare.{find_sub, copy_quota_lem, prepare_lem}
use lumi_panel.Metering.Ladder.Steps.{
  IsWellFormed, ladder_of-IsReady, rebuilds, syncs, drops, attributes, reconciles, resets,
  Step-IsWellFormed,
}
use lumi_panel.Metering.Ladder.Effects.{
  ladder_of-insert, find_sub-nil, ladder_of-none, ladder_of-some, change_user_lem, reconcile_lem,
  attribute_lem,
}
use lumi_panel.Metering.Ladder.Syncing.{sync_lem}
use lumi_panel.Metering.Ladder.Calls.{
  Call, calls_rebuild, calls_sync, calls_drop, calls_attribute, calls_reconcile, calls_reset,
  Result, rows, found, call, run_calls,
}
use lumi_panel.Metering.Ladder.Abstract.{State, Lists, Behaves, Replays, at_end, behaves}

-- What a caller sees of the ladder.
abbrev pub view : QuotaLadder → State
view l u k = find_sub k (ladder_of u l)

-- The numbers of a call are int64 values.
abbrev pub IsFit : Call → Type 0
IsFit (calls_rebuild user subs) = HasCounters subs
IsFit (calls_sync user subs) = HasCounters subs
IsFit (calls_drop user) = Unit
IsFit (calls_attribute user billed bucket_at) = pos_part billed < 2 ^ 63
IsFit (calls_reconcile user id used) = IsInt64 used
IsFit (calls_reset user id epoch reset_at) = Unit

call-IsWellFormed :
    (c : Call) (l : QuotaLadder) → IsFit c → IsWellFormed l → IsWellFormed (call c l).0
unfolding call
call-IsWellFormed (calls_rebuild user subs) l h w = Step-IsWellFormed (rebuilds user subs h) w
call-IsWellFormed (calls_sync user subs) l h w = Step-IsWellFormed (syncs user subs h) w
call-IsWellFormed (calls_drop user) l h w = Step-IsWellFormed (drops user) w
call-IsWellFormed (calls_attribute user billed bucket_at) l h w =
    Step-IsWellFormed (attributes user billed bucket_at) w
call-IsWellFormed (calls_reconcile user id used) l h w =
    Step-IsWellFormed (reconciles user id used h) w
call-IsWellFormed (calls_reset user id epoch reset_at) l h w =
    Step-IsWellFormed (resets user id epoch reset_at) w

view-rebuild :
    (user : ℤ) (subs : List SubQuota) (l : QuotaLadder) (u k : ℤ)
    → view (rebuild user subs l) u k ≡ (if user ==ℤ u then find_sub k subs else view l u k)
unfolding rebuild
view-rebuild user subs l u k =
    ground (arith, ladder_of-insert user u (prepare subs) l, (prepare_lem subs).1 k)

view-drop :
    (user : ℤ) (l : QuotaLadder) (u k : ℤ)
    → view (drop user l) u k ≡ (if user ==ℤ u then none else view l u k)
unfolding drop ladder_of
view-drop user l u k = ground (arith, lookup-delete user u l.ladders, find_sub-nil k)

Lists-view : (user : ℤ) (l : QuotaLadder) → IsWellFormed l → Lists (view l user) (ladder_of user l)
Lists-view user l w =
    let ready = ladder_of-IsReady user l w in
    record { distinct = ready.distinct; in_order = ready.ordered; lists = λ k. refl }

overflow-attribute :
    (billed : ℤ) (bucket_at : Instant)
    → leb_ℤ billed (pos 0) ≡ false
    → Quota.attribute billed [] bucket_at
      ≡ record { subscription_id = overflow_subscription_id; billed = billed } ∷ []
unfolding Quota.attribute
overflow-attribute billed bucket_at h = ground arith

attribute-rows :
    (user billed : ℤ) (bucket_at : Instant) (l : QuotaLadder)
    → leb_ℤ billed (pos 0) ≡ false
    → (attribute user billed bucket_at l).1 ≡ Quota.attribute billed (ladder_of user l) bucket_at
unfolding attribute
attribute-rows user billed bucket_at l h = elim (Option-cases (lookup user l.ladders)) [
  | inl e ↦ rw (h, e, ladder_of-none user l e) (sym (overflow-attribute billed bucket_at h))
  | inr (subs, e) ↦ rw (h, e, ladder_of-some user l e) refl
]

attribute-refused :
    (user billed : ℤ) (bucket_at : Instant) (l : QuotaLadder)
    → leb_ℤ billed (pos 0) ≡ true
    → attribute user billed bucket_at l ≡ (l, [])
unfolding attribute
attribute-refused user billed bucket_at l h = rw h refl

call-Behaves :
    (c : Call) (l : QuotaLadder)
    → IsFit c
    → IsWellFormed l
    → Behaves c (view l) (call c l).1 (view (call c l).0)
unfolding call
call-Behaves (calls_rebuild user subs) l h w = (refl, view-rebuild user subs l)
call-Behaves (calls_sync user subs) l h w = (refl, sync_lem user subs l w)
call-Behaves (calls_drop user) l h w = (refl, view-drop user l)
call-Behaves (calls_attribute user billed bucket_at) l h w =
    elim (Bool-cases (leb_ℤ billed (pos 0))) [
      | inl e ↦
          let out = attribute-refused user billed bucket_at l e in
          inl (ground arith, ap (λ p. rows p.1) out, λ u k. ap (λ p. view p.0 u k) out)
      | inr e ↦
          let positive : pos 0 <ℤ billed = ground arith in
          let out = attribute-rows user billed bucket_at l e in
          inr (record {
            positive = positive;
            subs = ladder_of user l;
            lists = Lists-view user l w;
            returns = ap rows out;
            settles = λ u k. rw out at ((attribute_lem user billed bucket_at l positive h w).3 u k);
          })
    ]
call-Behaves (calls_reconcile user id used) l h w =
    let (ok, changed) = reconcile_lem user id used l in
    record { reports = ap found ok; changes = changed }
call-Behaves (calls_reset user id epoch reset_at) l h w =
    let (ok, changed) =
      change_user_lem (restart epoch reset_at) user id l (λ s. unfold restart in refl) in
    record { reports = ap found ok; changes = changed }

run_calls-Replays :
    (cs : List Call) (l : QuotaLadder)
    → All IsFit cs
    → IsWellFormed l
    → Replays cs (view l) (run_calls cs l).1 (view (run_calls cs l).0)
unfolding run_calls
run_calls-Replays [] l h w = at_end (λ u k. refl)
run_calls-Replays (c ∷ cs) l (h, hs) w =
    let m = (call c l).0 in
    behaves (call-Behaves c l h w) (run_calls-Replays cs m hs (call-IsWellFormed c l h w))

map-copy_quota : (subs : List SubQuota) → map copy_quota subs ≡ subs
map-copy_quota [] = refl
map-copy_quota (s ∷ subs) = rw (copy_quota_lem s, map-copy_quota subs) refl

-- What the snapshots of the ladder show.
abbrev pub shown : QuotaLadder → State
shown l u k = find_sub k (snapshot u l)

shown-view : (l : QuotaLadder) (u k : ℤ) → shown l u k ≡ view l u k
unfolding snapshot
shown-view l u k = ap (find_sub k) (map-copy_quota (ladder_of u l))

Replays-end :
    {cs : List Call} {a b : State} {rs : List Result}
    → Replays cs a rs b
    → (d : State) → ((u k : ℤ) → d u k ≡ b u k)
    → Replays cs a rs d
Replays-end (at_end e) d q = at_end (λ u k. q u k ∙ e u k)
Replays-end (behaves h r) d q = behaves h (Replays-end r d q)

-- Any sequence of calls of the methods, on numbers that are int64 values, starting at a new ladder,
-- returns what the abstract ladder may return, which starts empty and forgets slices and their
-- order; and behind the calls, the snapshots show each user exactly the subscriptions that the
-- abstract ladder then holds.
pub run_calls_refines :
    (cs : List Call)
    → All IsFit cs
    → let (l, rs) = run_calls cs new_quota_ladder in Replays cs (λ u k. none) rs (shown l)
unfolding ladder_of find_sub
run_calls_refines cs h =
    let l = (run_calls cs new_quota_ladder).0 in
    Replays-end (run_calls-Replays cs new_quota_ladder h tt) (shown l) (shown-view l)
