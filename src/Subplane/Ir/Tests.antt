-- ===== src/Subplane/Ir/Tests.antt =====
-- Runs of internal/subplane/ir.go, and its theorems at concrete nodes.
use lumi_panel.Base.{
  All, ◌≡◌, refl, Bool, true, false, [], ◌∷◌, List, inl, inr, ℤ, pos, pos_part, neg_part,
}
use lumi_panel.Base.Bytes.{Bytes, codes}
use lumi_panel.Subplane.Detect.Rules.{Request, resolve}
use lumi_panel.Subplane.Ir.Resolved.{build_skeleton-resolved}
use lumi_panel.Subplane.Client.{sing_box, zero_version}
use lumi_panel.Subplane.Capability.{vless, any_tls, supports}
use lumi_panel.Subplane.Ir.{
  Node, Selector, visible_all, visible_lumi_only, zero_userinfo, build_skeleton,
}
use lumi_panel.Subplane.Ir.Groups.{Occurs}
use lumi_panel.Subplane.Ir.Skeleton.{IsEntitled}
use lumi_panel.Subplane.Ir.Sharing.{AsksSame, build_skeleton_shared}

-- The settings of these nodes are a Boolean.
abbrev plain : Node Bool
plain = record {
  id = pos 1;
  name = "HK-01";
  protocol = vless;
  host = "hk.example";
  port = pos 443;
  group_ids = pos 7 ∷ pos 8 ∷ [];
  visible_to = visible_all;
  is_visible = true;
  rate_bp = pos 100;
  tags = [];
  settings = true;
}

abbrev modern : Node Bool
modern = record plain { id = pos 2; protocol = any_tls }

abbrev native : Node Bool
native = record plain { id = pos 3; visible_to = visible_lumi_only }

abbrev foreign : Node Bool
foreign = record plain { id = pos 4; group_ids = pos 9 ∷ [] }

abbrev candidates : List (Node Bool)
candidates = plain ∷ modern ∷ native ∷ foreign ∷ []

abbrev asks : Selector
asks = record {
  client = record { profile = sing_box; version = zero_version };
  group_ids = pos 8 ∷ pos 5 ∷ [];
  lumi_only = false;
}

runs :
    build_skeleton asks candidates
    ≡ record { nodes = plain ∷ []; dropped_count = 1; userinfo = zero_userinfo }
unfolding build_skeleton pos_part neg_part
runs = refl

same_groups : AsksSame asks (record asks { group_ids = pos 5 ∷ pos 8 ∷ pos 5 ∷ [] })
same_groups = record { client = refl; native = refl; groups = λ k. (forth k, back k) }
  where
    forth : (k : ℤ) → Occurs k (pos 8 ∷ pos 5 ∷ []) → Occurs k (pos 5 ∷ pos 8 ∷ pos 5 ∷ [])
    forth k (inl e) = inr (inl e)
    forth k (inr (inl e)) = inl e
    forth k (inr (inr h)) = absurd h

    back : (k : ℤ) → Occurs k (pos 5 ∷ pos 8 ∷ pos 5 ∷ []) → Occurs k (pos 8 ∷ pos 5 ∷ [])
    back k (inl e) = inr (inl e)
    back k (inr (inl e)) = inl e
    back k (inr (inr (inl e))) = inr (inl e)
    back k (inr (inr (inr h))) = absurd h

build_skeleton_shared_example :
    build_skeleton asks candidates
    ≡ build_skeleton (record asks { group_ids = pos 5 ∷ pos 8 ∷ pos 5 ∷ [] }) candidates
build_skeleton_shared_example =
    build_skeleton_shared asks (record asks { group_ids = pos 5 ∷ pos 8 ∷ pos 5 ∷ [] }) candidates
      same_groups

abbrev same : Bytes → Bytes
same s = s

-- A client that asks by the flag, and for which the User-Agent decides nothing.
abbrev flagged : Request
flagged = record {
  target = [];
  flag = codes "sing-box";
  user_agent = codes "mihomo/1.19.0";
  user_preference = [];
}

build_skeleton-resolved_example :
    All
      (λ n.
        IsEntitled asks n
        × (supports
              (record { profile = sing_box; version = record zero_version { major = pos 1 } })
              n.protocol
            ≡ true))
      (build_skeleton asks candidates).nodes
unfolding resolve
build_skeleton-resolved_example =
    build_skeleton-resolved same same flagged asks candidates
      (record zero_version { major = pos 1 }) (λ e. cc) refl
