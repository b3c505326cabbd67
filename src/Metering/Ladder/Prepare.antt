-- ===== src/Metering/Ladder/Prepare.antt =====
-- `prepare` of internal/metering/ladder.go: what is installed for a user.
use mathlib.Core.List.{Pairwise}
use lumi_panel.Base.{
  ◌≡◌, ◌≢◌, ◌∙◌, refl, sym, arith, Bool, true, Option, none, some, List, [], ◌∷◌, ℤ, ◌==ℤ◌, ==ℤ_iff,
  if◌then◌else◌, All,
}
use lumi_panel.Base.Assoc.{lookup, insert, lookup-insert}
use lumi_panel.Base.Sort.{insert_sorted, sort_stable}
use lumi_panel.Domain.Quota.{SubQuota, less, sort_for_deduction}
use lumi_panel.Domain.Quota.Order.{DrainsNoLater, sort_for_deduction_lem}
use lumi_panel.Domain.Quota.Shares.{Lacks}
use lumi_panel.Domain.Quota.Apply.{HasDistinctIds}
use lumi_panel.Metering.Ladder.{copy_quota, is_seen, dedup, prepare}

pub copy_quota_lem : (s : SubQuota) → copy_quota s ≡ s
unfolding copy_quota
copy_quota_lem s = ground arith

-- The first entry with an ID.
unfoldable pub find_sub : ℤ → List SubQuota → Option SubQuota
find_sub k [] = none
find_sub k (s ∷ subs) = if s.id ==ℤ k then some s else find_sub k subs

pub find_sub-id :
    (k : ℤ) (subs : List SubQuota) (s : SubQuota) → find_sub k subs ≡ some s → s.id ≡ k
unfolding find_sub
find_sub-id k [] s e = cc
find_sub-id k (t ∷ subs) s e = ground (arith, find_sub-id k subs s, ==ℤ_iff t.id k)

is_seen-insert :
    (k j : ℤ) (seen : List (ℤ × Bool))
    → is_seen j (insert k true seen) ≡ (if k ==ℤ j then true else is_seen j seen)
unfolding is_seen
is_seen-insert k j seen = ground (arith, lookup-insert k j true seen)

Lacks-dedup :
    (k : ℤ) (seen : List (ℤ × Bool)) (subs : List SubQuota)
    → is_seen k seen ≡ true
    → Lacks k (dedup seen subs)
unfolding dedup
Lacks-dedup k seen [] h = tt
Lacks-dedup k seen (s ∷ subs) h =
    let rest = Lacks-dedup k (insert s.id true seen) subs in
    ground (arith, Lacks-dedup k seen subs h, rest, is_seen-insert s.id k seen, copy_quota_lem s)

dedup-HasDistinctIds :
    (seen : List (ℤ × Bool)) (subs : List SubQuota) → HasDistinctIds (dedup seen subs)
unfolding dedup
dedup-HasDistinctIds seen [] = tt
dedup-HasDistinctIds seen (s ∷ subs) = ground (
  arith,
  dedup-HasDistinctIds seen subs,
  dedup-HasDistinctIds (insert s.id true seen) subs,
  Lacks-dedup s.id (insert s.id true seen) subs,
  is_seen-insert s.id s.id seen,
  copy_quota_lem s,
)

find_sub-dedup :
    (k : ℤ) (seen : List (ℤ × Bool)) (subs : List SubQuota)
    → find_sub k (dedup seen subs) ≡ (if is_seen k seen then none else find_sub k subs)
unfolding dedup find_sub
find_sub-dedup k seen [] = ground arith
find_sub-dedup k seen (s ∷ subs) = ground (
  arith,
  find_sub-dedup k seen subs,
  find_sub-dedup k (insert s.id true seen) subs,
  is_seen-insert s.id k seen,
  ==ℤ_iff s.id k,
  copy_quota_lem s,
)

module _ (P : SubQuota → Type 0) where
  All-dedup : (seen : List (ℤ × Bool)) (subs : List SubQuota) → All P subs → All P (dedup seen subs)
  unfolding dedup
  All-dedup seen [] h = tt
  All-dedup seen (s ∷ subs) (h, hs) = ground (
    arith,
    All-dedup seen subs hs,
    All-dedup (insert s.id true seen) subs hs,
    rw (← copy_quota_lem s) at h,
  )

  All-insert_sorted :
      (x : SubQuota) (l : List SubQuota) → P x → All P l → All P (insert_sorted less x l)
  unfolding insert_sorted
  All-insert_sorted x [] h hs = (h, tt)
  All-insert_sorted x (y ∷ l) h (hy, hs) = ground (arith, All-insert_sorted x l h hs)

  All-sort_stable : (l : List SubQuota) → All P l → All P (sort_stable less l)
  unfolding sort_stable
  All-sort_stable [] h = tt
  All-sort_stable (x ∷ l) (h, hs) =
      All-insert_sorted x (sort_stable less l) h (All-sort_stable l hs)

  -- What holds of every entry that comes in holds of every entry that is installed.
  pub All-prepare : (subs : List SubQuota) → All P subs → All P (prepare subs)
  unfolding prepare sort_for_deduction
  All-prepare subs h = All-sort_stable (dedup [] subs) (All-dedup [] subs h)

insert_sorted-HasDistinctIds :
    (x : SubQuota) (l : List SubQuota)
    → Lacks x.id l
    → HasDistinctIds l
    → HasDistinctIds (insert_sorted less x l)
unfolding insert_sorted
insert_sorted-HasDistinctIds x [] lx d = (tt, tt)
insert_sorted-HasDistinctIds x (y ∷ l) (nx, lx) (ly, d) =
    let others = All-insert_sorted (λ s. s.id ≢ y.id) x l (λ e. nx (sym e)) ly in
    ground (arith, insert_sorted-HasDistinctIds x l lx d, others)

sort_stable-HasDistinctIds :
    (l : List SubQuota) → HasDistinctIds l → HasDistinctIds (sort_stable less l)
unfolding sort_stable
sort_stable-HasDistinctIds [] d = tt
sort_stable-HasDistinctIds (x ∷ l) (lx, d) =
    insert_sorted-HasDistinctIds x (sort_stable less l) (All-sort_stable (λ s. s.id ≢ x.id) l lx)
      (sort_stable-HasDistinctIds l d)

find_sub-insert_sorted :
    (k : ℤ) (x : SubQuota) (l : List SubQuota)
    → Lacks x.id l
    → find_sub k (insert_sorted less x l) ≡ find_sub k (x ∷ l)
unfolding find_sub insert_sorted
find_sub-insert_sorted k x [] lx = refl
find_sub-insert_sorted k x (y ∷ l) (nx, lx) =
    ground (arith, find_sub-insert_sorted k x l lx, ==ℤ_iff y.id k, ==ℤ_iff x.id k)

find_sub-sort_stable :
    (k : ℤ) (l : List SubQuota) → HasDistinctIds l → find_sub k (sort_stable less l) ≡ find_sub k l
unfolding find_sub sort_stable
find_sub-sort_stable k [] d = refl
find_sub-sort_stable k (x ∷ l) (lx, d) =
    let front =
      find_sub-insert_sorted k x (sort_stable less l) (All-sort_stable (λ s. s.id ≢ x.id) l lx) in
    ground (arith, front, find_sub-sort_stable k l d)

-- What is installed has each ID once, with the first entry that came in under it, in an order in
-- which no entry drains after a later one.
pub prepare_lem :
    (subs : List SubQuota)
    → HasDistinctIds (prepare subs)
      × ((k : ℤ) → find_sub k (prepare subs) ≡ find_sub k subs)
      × Pairwise DrainsNoLater (prepare subs)
unfolding prepare
prepare_lem subs =
    let d = dedup-HasDistinctIds [] subs in
    (
      unfold sort_for_deduction in sort_stable-HasDistinctIds (dedup [] subs) d,
      λ k.
          unfold sort_for_deduction is_seen lookup in
          (find_sub-sort_stable k (dedup [] subs) d ∙ find_sub-dedup k [] subs),
      (sort_for_deduction_lem (dedup [] subs)).1,
    )
