-- ===== src/Subplane/Ir/Groups.antt =====
-- The permission groups of internal/subplane/ir.go.
use lumi_panel.Base.{
  ◌≡◌, ◌⊎◌, inl, inr, ◌↔◌, refl, arith, Bool, true, false, List, [], ◌∷◌, ℤ, ◌==ℤ◌, ==ℤ_iff,
  if◌then◌else◌,
}
use lumi_panel.Base.Assoc.{lookup, insert, lookup-insert}
use lumi_panel.Subplane.Ir.{
  Visibility, visible_lumi_only, is_lumi_only, group_map, has_group, in_any_group,
}

-- An ID occurs in a list.
abbrev pub Occurs : ℤ → List ℤ → Type 0
Occurs k [] = ⊥
Occurs k (x ∷ xs) = (x ≡ k) ⊎ Occurs k xs

-- Two lists of IDs have one in common.
abbrev pub Share : List ℤ → List ℤ → Type 0
Share [] ys = ⊥
Share (x ∷ xs) ys = Occurs x ys ⊎ Share xs ys

has_group-insert :
    (k id : ℤ) (groups : List (ℤ × Bool))
    → has_group k (insert id true groups) ≡ (if id ==ℤ k then true else has_group k groups)
unfolding has_group
has_group-insert k id groups = ground (arith, lookup-insert id k true groups)

has_group-group_map :
    (k : ℤ) (ids : List ℤ) (groups : List (ℤ × Bool))
    → (has_group k (group_map ids groups) ≡ true) ↔ (Occurs k ids ⊎ (has_group k groups ≡ true))
unfolding group_map
has_group-group_map k [] groups = ground arith
has_group-group_map k (id ∷ ids) groups = ground (
  arith,
  has_group-group_map k ids (insert id true groups),
  has_group-insert k id groups,
  ==ℤ_iff id k,
)

has_group-nil : (k : ℤ) → has_group k [] ≡ false
unfolding has_group lookup
has_group-nil k = refl

pub in_any_group_iff :
    (ids user_ids : List ℤ) → (in_any_group ids (group_map user_ids []) ≡ true) ↔ Share ids user_ids
unfolding in_any_group
in_any_group_iff [] user_ids = ground arith
in_any_group_iff (id ∷ ids) user_ids =
    ground
      (arith, in_any_group_iff ids user_ids, has_group-group_map id user_ids [], has_group-nil id)

pub is_lumi_only_iff : (v : Visibility) → (is_lumi_only v ≡ true) ↔ (v ≡ visible_lumi_only)
unfolding is_lumi_only
is_lumi_only_iff v = ground arith

pub Share-mono :
    (ids xs ys : List ℤ) → ((k : ℤ) → Occurs k xs → Occurs k ys) → Share ids xs → Share ids ys
Share-mono [] xs ys f h = h
Share-mono (id ∷ ids) xs ys f (inl o) = inl (f id o)
Share-mono (id ∷ ids) xs ys f (inr h) = inr (Share-mono ids xs ys f h)

pub no-Share : (ids : List ℤ) → ¬ Share ids []
no-Share [] h = h
no-Share (id ∷ ids) (inl h) = h
no-Share (id ∷ ids) (inr h) = no-Share ids h
