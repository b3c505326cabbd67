-- ===== src/Metering/Ladder/Syncing.antt =====
-- `Sync` of internal/metering/ladder.go: which counters survive a change of the subscriptions.
use mathlib.Core.Option
use lumi_panel.Base.{
  ◌≡◌, ◌∙◌, refl, ap, arith, Option-cases, inl, inr, Option, none, some, List, [], ◌∷◌, map, ℤ,
  ◌==ℤ◌, ==ℤ_iff, if◌then◌else◌,
}
use lumi_panel.Base.Assoc.{lookup, insert, lookup-insert}
use lumi_panel.Domain.Quota.{SubQuota}
use lumi_panel.Domain.Quota.Apply.{HasDistinctIds}
use lumi_panel.Domain.Quota.Shares.{Lacks}
use lumi_panel.Metering.Ladder.{
  QuotaLadder, ladder_of, known_counters, keep_counter, prepare, sync, set_used,
}
use lumi_panel.Metering.Ladder.Prepare.{find_sub, find_sub-id, prepare_lem}
use lumi_panel.Metering.Ladder.Steps.{IsWellFormed, ladder_of-IsReady}
use lumi_panel.Metering.Ladder.Effects.{ladder_of-insert, find_sub-map}

find_sub-absent : (k : ℤ) (subs : List SubQuota) → Lacks k subs → find_sub k subs ≡ none
unfolding find_sub
find_sub-absent k [] l = refl
find_sub-absent k (s ∷ subs) (l, ls) = ground (arith, find_sub-absent k subs ls, ==ℤ_iff s.id k)

keep_counter-id : (known : List (ℤ × ℤ)) (s : SubQuota) → (keep_counter known s).id ≡ s.id
unfolding keep_counter
keep_counter-id known s = ground arith

known_counters-lookup :
    (k : ℤ) (subs : List SubQuota) (known : List (ℤ × ℤ))
    → HasDistinctIds subs
    → lookup k (known_counters subs known)
      ≡ elim (find_sub k subs) [ none ↦ lookup k known | some s ↦ some s.used_bytes ]
unfolding known_counters find_sub
known_counters-lookup k [] known d = refl
known_counters-lookup k (s ∷ subs) known (l, d) = ground (
  arith,
  known_counters-lookup k subs (insert s.id s.used_bytes known) d,
  lookup-insert s.id k s.used_bytes known,
  find_sub-absent s.id subs l,
  ==ℤ_iff s.id k,
)

-- The counter that `Sync` leaves on an incoming subscription: the one held under its ID, if any.
abbrev pub held_counter : Option SubQuota → SubQuota → SubQuota
held_counter none s = s
held_counter (some old) s = set_used old.used_bytes s

lookup-nil : (k : ℤ) → lookup {V = ℤ} k [] ≡ none
unfolding lookup
lookup-nil k = refl

keep_counter-held :
    (old : List SubQuota) (s : SubQuota)
    → HasDistinctIds old
    → keep_counter (known_counters old []) s ≡ held_counter (find_sub s.id old) s
unfolding keep_counter
keep_counter-held old s d =
    let known = known_counters-lookup s.id old [] d in
    elim (Option-cases (find_sub s.id old)) [
      | inl e ↦ ground (arith, known, lookup-nil s.id)
      | inr (t, e) ↦ ground (arith, known)
    ]

kept :
    (old subs : List SubQuota) (k : ℤ)
    → HasDistinctIds old
    → Option.map (keep_counter (known_counters old [])) (find_sub k subs)
      ≡ Option.map (held_counter (find_sub k old)) (find_sub k subs)
kept old subs k d = elim (Option-cases (find_sub k subs)) [
  | inl e ↦ rw e refl
  | inr (s, e) ↦ rw e (
      ap some (
        keep_counter-held old s d
        ∙ ap (λ j. held_counter (find_sub j old) s) (find_sub-id k subs s e)))
]

-- After `Sync` on a well-formed ladder the user holds the incoming subscriptions, the first under
-- each ID, with the kind, allowance, expiry and period that came in, and with the counter that the
-- ladder held under that ID, if any. Other users keep their entries.
pub sync_lem :
    (user : ℤ) (subs : List SubQuota) (l : QuotaLadder)
    → IsWellFormed l
    → (u k : ℤ)
    → find_sub k (ladder_of u (sync user subs l)) ≡ (
        if user ==ℤ u
        then Option.map (held_counter (find_sub k (ladder_of user l))) (find_sub k subs)
        else find_sub k (ladder_of u l))
unfolding sync
sync_lem user subs l w u k =
    let old = ladder_of user l in
    let known = known_counters old [] in
    let found =
      find_sub-map k (keep_counter known) (prepare subs) (keep_counter-id known)
      ∙ ap (Option.map (keep_counter known)) ((prepare_lem subs).1 k)
      ∙ kept old subs k (ladder_of-IsReady user l w).distinct in
    ground (
      arith,
      ladder_of-insert user u (map (keep_counter known) (prepare subs)) l,
      found,
      ==ℤ_iff user u,
    )
