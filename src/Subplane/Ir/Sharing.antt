-- ===== src/Subplane/Ir/Sharing.antt =====
-- Which users may share a skeleton of internal/subplane/ir.go.
use lumi_panel.Base.{ℕ, ◌≡◌, ◌↔◌, ◌∙◌, refl, sym, List, [], ℤ}
use lumi_panel.Subplane.Ir.{Node, zero_userinfo, Selector, build_skeleton}
use lumi_panel.Subplane.Ir.Groups.{Occurs, Share-mono, no-Share}
use lumi_panel.Subplane.Ir.Skeleton.{
  IsEntitled, Selects, done, hides, drops, offers, build_skeleton_lem, Selects-eq,
}

-- Two selectors that ask the same: one client, one native flag, one set of groups.
pub record AsksSame (sel sel' : Selector) : Type 0 where
  pub client : sel.client ≡ sel'.client
  pub native : sel.lumi_only ≡ sel'.lumi_only
  pub groups : (k : ℤ) → Occurs k sel.group_ids ↔ Occurs k sel'.group_ids

AsksSame-sym : (sel sel' : Selector) → AsksSame sel sel' → AsksSame sel' sel
AsksSame-sym sel sel' q = record {
  client = sym q.client;
  native = sym q.native;
  groups = λ k. ((q.groups k).1, (q.groups k).0);
}

module _ {S : Type 0} where
  IsEntitled-same :
      (sel sel' : Selector) (n : Node S) → AsksSame sel sel' → IsEntitled sel n → IsEntitled sel' n
  IsEntitled-same sel sel' n q h = record {
    shown = h.shown;
    native = λ e. sym q.native ∙ h.native e;
    member = Share-mono n.group_ids sel.group_ids sel'.group_ids (λ k. (q.groups k).0) h.member;
  }

  Selects-same :
      (sel sel' : Selector) {ns ms : List (Node S)} {d : ℕ}
      → AsksSame sel sel'
      → Selects sel ns ms d
      → Selects sel' ns ms d
  Selects-same sel sel' q done = done
  Selects-same sel sel' q (hides {n} h s) =
      hides (λ k. h (IsEntitled-same sel' sel n (AsksSame-sym sel sel' q) k))
        (Selects-same sel sel' q s)
  Selects-same sel sel' q (drops {n} h e s) =
      drops (IsEntitled-same sel sel' n q h) (rw (q.client) at e) (Selects-same sel sel' q s)
  Selects-same sel sel' q (offers {n} h e s) =
      offers (IsEntitled-same sel sel' n q h) (rw (q.client) at e) (Selects-same sel sel' q s)

  -- The skeleton may be shared by every user whose selector asks the same: repeated groups and
  -- their order make no difference to it.
  pub build_skeleton_shared :
      (sel sel' : Selector) (candidates : List (Node S))
      → AsksSame sel sel'
      → build_skeleton sel candidates ≡ build_skeleton sel' candidates
  build_skeleton_shared sel sel' candidates q =
      let (s, u) = build_skeleton_lem sel candidates in
      let (s', u') = build_skeleton_lem sel' candidates in
      let (e, f) = Selects-eq sel' (Selects-same sel sel' q s) s' in cc (e, f, u, u')

  hidden :
      (sel : Selector) {ns ms : List (Node S)} {d : ℕ}
      → sel.group_ids ≡ []
      → Selects sel ns ms d
      → (ms ≡ []) × (d ≡ 0)
  hidden sel e done = (refl, refl)
  hidden sel e (hides h s) = hidden sel e s
  hidden sel e (drops {n} h q s) = absurd (no-Share n.group_ids (rw e at h.member))
  hidden sel e (offers {n} h q s) = absurd (no-Share n.group_ids (rw e at h.member))

  -- A user in no group is offered nothing, and is not told how many nodes there are.
  pub build_skeleton_ungrouped :
      (sel : Selector) (candidates : List (Node S))
      → sel.group_ids ≡ []
      → build_skeleton sel candidates
        ≡ record { nodes = []; dropped_count = 0; userinfo = zero_userinfo }
  build_skeleton_ungrouped sel candidates e =
      let (s, u) = build_skeleton_lem sel candidates in
      let (ms, d) = hidden sel e s in cc (ms, d, u)
