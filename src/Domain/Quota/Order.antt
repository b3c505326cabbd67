-- ===== src/Domain/Quota/Order.antt =====
-- The deduction order of internal/domain/quota.go.
use mathlib.Core.List.{Mem, Perm, Pairwise}
use mathlib.Core.List.Pairwise
use lumi_panel.Base.{◌≤◌, ◌≡◌, ◌⊎◌, arith, true, false, Option, none, some, List, ◌≤ℤ◌, eq_of_parts}
use lumi_panel.Base.Sort.Laws.{
  IsWeakOrder, sort_stable-perm, sort_stable-IsSorted, sort_stable-eq_of_perm,
}
use lumi_panel.Time.{Instant}
use lumi_panel.Domain.Quota.{primary, data_pack, SubQuota, less, sort_for_deduction}

less-asym : (a b : SubQuota) → less a b ≡ true → less b a ≡ false
unfolding less
less-asym a b h = ground arith

less-not_less_trans : (a b c : SubQuota) → less a b ≡ false → less b c ≡ false → less a c ≡ false
unfolding less
less-not_less_trans a b c h k = ground arith

-- The comparator is a strict weak order at every value of the fields, unknown kinds included.
pub less-IsWeakOrder : IsWeakOrder less
less-IsWeakOrder = record { asym = less-asym; not_less_trans = less-not_less_trans }

abbrev pub ExpiresNoLater : Option Instant → Option Instant → Type 0
ExpiresNoLater none (some _) = ⊥
ExpiresNoLater none none = Unit
ExpiresNoLater (some _) none = Unit
ExpiresNoLater (some x) (some y) = x ≤ y

-- What a subscription has ahead of one that is drained after it.
pub record DrainsNoLater (a b : SubQuota) : Type 0 where
  pub packs_first : b.kind ≡ data_pack → a.kind ≡ data_pack
  pub primary_before_unknown : b.kind ≡ primary → (a.kind ≡ data_pack) ⊎ (a.kind ≡ primary)
  pub soonest_first :
      a.kind ≡ data_pack → b.kind ≡ data_pack → ExpiresNoLater a.expired_at b.expired_at
  pub ties_by_id : a.kind ≡ b.kind → a.expired_at ≡ b.expired_at → a.id ≤ℤ b.id

DrainsNoLater-of_less : (a b : SubQuota) → less b a ≡ false → DrainsNoLater a b
unfolding less
DrainsNoLater-of_less a b h = ground arith

pub sort_for_deduction_lem :
    (subs : List SubQuota)
    → Perm (sort_for_deduction subs) subs × Pairwise DrainsNoLater (sort_for_deduction subs)
unfolding sort_for_deduction
sort_for_deduction_lem subs = (
  sort_stable-perm less subs,
  Pairwise.imp DrainsNoLater-of_less (sort_stable-IsSorted less less-IsWeakOrder subs),
)

-- Two entries with one ID are the same entry.
abbrev pub HasUniqueIds : List SubQuota → Type 0
HasUniqueIds subs = (a b : SubQuota) → Mem a subs → Mem b subs → a.id ≡ b.id → a ≡ b

id-eq_of_not_less : (a b : SubQuota) → less a b ≡ false → less b a ≡ false → a.id ≡ b.id
unfolding less
id-eq_of_not_less a b h k = eq_of_parts a.id b.id (ground arith)

-- The order is total and deterministic: the same subscriptions with unique IDs, in whatever order
-- they arrive, give the same ladder.
pub sort_for_deduction-eq_of_perm :
    (xs ys : List SubQuota)
    → Perm xs ys
    → HasUniqueIds xs
    → sort_for_deduction xs ≡ sort_for_deduction ys
unfolding sort_for_deduction
sort_for_deduction-eq_of_perm xs ys p unique =
    sort_stable-eq_of_perm less less-IsWeakOrder xs ys p
      λ a b ma mb h k. unique a b ma mb (id-eq_of_not_less a b h k)
