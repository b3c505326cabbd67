-- ===== src/Subplane/Ir.antt =====
-- internal/subplane/ir.go: the nodes that a subscription response offers. The settings of a node are
-- passed through unread, so their type is a parameter.
pub mod Groups
pub mod Skeleton
pub mod Sharing
pub mod Resolved
mod Tests
use Prim.Native.String.{String}
use lumi_panel.Base.{
  ℕ, suc, Bool, true, false, not, ◌&&◌, Option, none, some, List, [], ◌∷◌, ◌++◌, ℤ, pos,
  if◌then◌else◌,
}
use lumi_panel.Base.Assoc.{lookup, insert}
use lumi_panel.Time.{Instant}
use lumi_panel.Subplane.Client.{Client}
use lumi_panel.Subplane.Capability.{Protocol, supports}

-- `visible_otherwise` is any string that is not one of the constants.
pub data Visibility : Type 0 where
  visible_all : Visibility
  visible_lumi_only : Visibility
  visible_otherwise : String → Visibility

unfoldable pub is_lumi_only : Visibility → Bool
is_lumi_only visible_lumi_only = true
is_lumi_only _ = false

pub record Node (Settings : Type 0) : Type 0 where
  pub id : ℤ
  pub name : String
  pub protocol : Protocol
  pub host : String
  pub port : ℤ
  pub group_ids : List ℤ
  pub visible_to : Visibility
  pub is_visible : Bool
  pub rate_bp : ℤ
  pub tags : List String
  pub settings : Settings

pub record Userinfo : Type 0 where
  pub upload : ℤ
  pub download : ℤ
  pub total : ℤ
  pub expire : Instant

abbrev pub zero_userinfo : Userinfo
zero_userinfo = record { upload = pos 0; download = pos 0; total = pos 0; expire = 0 }

-- The dropped nodes are elements of a slice, of which an int counts any number.
pub record Ir (Settings : Type 0) : Type 0 where
  pub nodes : List (Node Settings)
  pub dropped_count : ℕ
  pub userinfo : Userinfo

pub record Selector : Type 0 where
  pub client : Client
  pub group_ids : List ℤ
  pub lumi_only : Bool

-- The map `groups`, with its Boolean values.
unfoldable pub group_map : List ℤ → List (ℤ × Bool) → List (ℤ × Bool)
unfolding insert
group_map [] groups = groups
group_map (id ∷ ids) groups = group_map ids (insert id true groups)

unfoldable pub has_group : ℤ → List (ℤ × Bool) → Bool
unfolding lookup
has_group id groups = elim (lookup id groups) [ none ↦ false | some b ↦ b ]

unfoldable pub in_any_group : List ℤ → List (ℤ × Bool) → Bool
unfolding has_group
in_any_group [] groups = false
in_any_group (id ∷ ids) groups = if has_group id groups then true else in_any_group ids groups

module _ {S : Type 0} where
  -- The body of the loop of `BuildSkeleton`.
  unfoldable pub consider : Selector → List (ℤ × Bool) → Node S → Ir S → Ir S
  unfolding is_lumi_only in_any_group supports
  consider sel groups n ir =
      if not n.is_visible
      then ir
      else if is_lumi_only n.visible_to && not sel.lumi_only
      then ir
      else if not (in_any_group n.group_ids groups)
      then ir
      else if not (supports sel.client n.protocol)
      then record ir { dropped_count = suc ir.dropped_count }
      else record ir { nodes = ir.nodes ++ n ∷ [] }

  unfoldable pub consider_all : Selector → List (ℤ × Bool) → List (Node S) → Ir S → Ir S
  unfolding consider
  consider_all sel groups [] ir = ir
  consider_all sel groups (n ∷ ns) ir = consider_all sel groups ns (consider sel groups n ir)

  unfoldable pub build_skeleton : Selector → List (Node S) → Ir S
  unfolding group_map consider_all
  build_skeleton sel candidates =
      consider_all sel (group_map sel.group_ids []) candidates
        (record { nodes = []; dropped_count = 0; userinfo = zero_userinfo })
