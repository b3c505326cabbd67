-- ===== src/Subplane/Ir/Skeleton.antt =====
-- What `BuildSkeleton` of internal/subplane/ir.go selects.
use mathlib.Core.Bool.{false≢true}
use mathlib.Core.List.{append-nil, append_assoc}
use lumi_panel.Base.{
  ℕ, suc, ◌+◌, ◌≡◌, inl, inr, ◌↔◌, ◌∙◌, refl, sym, ap, arith, Bool, true, false, not, ◌&&◌,
  Bool-cases, List, [], ◌∷◌, ◌++◌, if◌then◌else◌,
}
use lumi_panel.Subplane.Capability.{supports}
use lumi_panel.Subplane.Ir.{
  visible_lumi_only, is_lumi_only, Node, zero_userinfo, Ir, Selector, group_map, in_any_group,
  consider, consider_all, build_skeleton,
}
use lumi_panel.Subplane.Ir.Groups.{Share, in_any_group_iff, is_lumi_only_iff}

same : (d : ℕ) → d + 0 ≡ d
same d = omega arith

from_zero : (d : ℕ) → 0 + d ≡ d
from_zero d = omega arith

shift : (d c : ℕ) → suc d + c ≡ d + suc c
shift d c = omega arith

module _ {S : Type 0} where
  -- The user behind the selector may know of the node: it is shown, shares a group, and is not
  -- kept for the native client unless that is what asks.
  pub record IsEntitled (sel : Selector) (n : Node S) : Type 0 where
    pub shown : n.is_visible ≡ true
    pub native : n.visible_to ≡ visible_lumi_only → sel.lumi_only ≡ true
    pub member : Share n.group_ids sel.group_ids

  -- How candidates become nodes and a count of dropped ones.
  pub data Selects (sel : Selector) : List (Node S) → List (Node S) → ℕ → Type 0 where
    done : Selects sel [] [] 0
    hides :
        {n : Node S} {ns ms : List (Node S)} {d : ℕ}
        → ¬ IsEntitled sel n
        → Selects sel ns ms d
        → Selects sel (n ∷ ns) ms d
    drops :
        {n : Node S} {ns ms : List (Node S)} {d : ℕ}
        → IsEntitled sel n
        → supports sel.client n.protocol ≡ false
        → Selects sel ns ms d
        → Selects sel (n ∷ ns) ms (suc d)
    offers :
        {n : Node S} {ns ms : List (Node S)} {d : ℕ}
        → IsEntitled sel n
        → supports sel.client n.protocol ≡ true
        → Selects sel ns ms d
        → Selects sel (n ∷ ns) (n ∷ ms) d

  -- The three guards of the loop that come before the client's dialect matters.
  abbrev entitled : Selector → Node S → Bool
  entitled sel n =
      n.is_visible
      && not (is_lumi_only n.visible_to && not sel.lumi_only)
      && in_any_group n.group_ids (group_map sel.group_ids [])

  entitled_iff : (sel : Selector) (n : Node S) → (entitled sel n ≡ true) ↔ IsEntitled sel n
  entitled_iff sel n =
      ground (arith, in_any_group_iff n.group_ids sel.group_ids, is_lumi_only_iff n.visible_to)

  consider-hides :
      (sel : Selector) (n : Node S) (ir : Ir S)
      → entitled sel n ≡ false
      → consider sel (group_map sel.group_ids []) n ir ≡ ir
  unfolding consider
  consider-hides sel n ir e = ground arith

  consider-entitled :
      (sel : Selector) (n : Node S) (ir : Ir S)
      → entitled sel n ≡ true
      → consider sel (group_map sel.group_ids []) n ir ≡ (
          if supports sel.client n.protocol
          then record ir { nodes = ir.nodes ++ n ∷ [] }
          else record ir { dropped_count = suc ir.dropped_count })
  unfolding consider
  consider-entitled sel n ir e = ground arith

  -- What the loop adds to what it has already gathered.
  record Gathered (sel : Selector) (ns : List (Node S)) (ir : Ir S) : Type 0 where
    nodes : List (Node S)
    count : ℕ
    selects : Selects sel ns nodes count
    result :
        consider_all sel (group_map sel.group_ids []) ns ir
        ≡ record ir { nodes = ir.nodes ++ nodes; dropped_count = ir.dropped_count + count }

  gathered : (sel : Selector) (ns : List (Node S)) (ir : Ir S) → Gathered sel ns ir
  unfolding consider_all
  gathered sel [] ir = record {
    nodes = [];
    count = 0;
    selects = done;
    result = cc (append-nil ir.nodes, same ir.dropped_count);
  }
  gathered sel (n ∷ ns) ir = elim (Bool-cases (entitled sel n)) [
    | inr e ↦
        let rest = gathered sel ns ir in
        record {
          nodes = rest.nodes;
          count = rest.count;
          selects =
              hides (λ h. absurd (false≢true (sym e ∙ (entitled_iff sel n).1 h))) rest.selects;
          result = rw (consider-hides sel n ir e) rest.result;
        }
    | inl e ↦ elim (Bool-cases (supports sel.client n.protocol)) [
      | inl k ↦
          let rest = gathered sel ns (record ir { nodes = ir.nodes ++ n ∷ [] }) in
          record {
            nodes = n ∷ rest.nodes;
            count = rest.count;
            selects = offers ((entitled_iff sel n).0 e) k rest.selects;
            result =
                rw (consider-entitled sel n ir e, k) cc
                  (rest.result, append_assoc ir.nodes (n ∷ []) rest.nodes);
          }
      | inr k ↦
          let rest = gathered sel ns (record ir { dropped_count = suc ir.dropped_count }) in
          record {
            nodes = rest.nodes;
            count = suc rest.count;
            selects = drops ((entitled_iff sel n).0 e) k rest.selects;
            result =
                rw (consider-entitled sel n ir e, k) cc
                  (rest.result, shift ir.dropped_count rest.count);
          }
    ]
  ]

  pub build_skeleton_lem :
      (sel : Selector) (candidates : List (Node S))
      → let ir = build_skeleton sel candidates in
        Selects sel candidates ir.nodes ir.dropped_count × (ir.userinfo ≡ zero_userinfo)
  unfolding build_skeleton
  build_skeleton_lem sel candidates =
      let all =
        gathered sel candidates
          (record { nodes = []; dropped_count = 0; userinfo = zero_userinfo }) in
      rw (all.result, from_zero all.count) (all.selects, refl)

  pub Selects-eq :
      (sel : Selector) {ns ms ms' : List (Node S)} {d d' : ℕ}
      → Selects sel ns ms d
      → Selects sel ns ms' d'
      → (ms ≡ ms') × (d ≡ d')
  Selects-eq sel done done = (refl, refl)
  Selects-eq sel (hides h s) (hides k t) = Selects-eq sel s t
  Selects-eq sel (hides h s) (drops k q t) = absurd (h k)
  Selects-eq sel (hides h s) (offers k q t) = absurd (h k)
  Selects-eq sel (drops h p s) (hides k t) = absurd (k h)
  Selects-eq sel (drops h p s) (drops k q t) = let (e, f) = Selects-eq sel s t in (e, ap suc f)
  Selects-eq sel (drops h p s) (offers k q t) = cc
  Selects-eq sel (offers h p s) (hides k t) = absurd (k h)
  Selects-eq sel (offers h p s) (drops k q t) = cc
  Selects-eq sel (offers {n} h p s) (offers k q t) =
      let (e, f) = Selects-eq sel s t in (ap (λ r. n ∷ r) e, f)
