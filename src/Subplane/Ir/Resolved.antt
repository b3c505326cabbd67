-- ===== src/Subplane/Ir/Resolved.antt =====
-- The response of internal/subplane/ir.go for a client that internal/subplane/detect.go resolved.
use mathlib.Core.Path.{subst}
use lumi_panel.Base.{ℕ, ◌≡◌, ◌≢◌, sym, true, List, All}
use lumi_panel.Base.Bytes.{Bytes}
use lumi_panel.Subplane.Client.{Version}
use lumi_panel.Subplane.Capability.{supports}
use lumi_panel.Subplane.Detect.Rules.{Request, from_ua, resolve}
use lumi_panel.Subplane.Detect.Offers.{resolve-supports}
use lumi_panel.Subplane.Ir.{Node, Selector, build_skeleton}
use lumi_panel.Subplane.Ir.Skeleton.{
  IsEntitled, Selects, done, hides, drops, offers, build_skeleton_lem,
}

module _ {S : Type 0} where
  -- What holds of each node that a selector may be offered holds of those it is.
  Selects-All :
      (sel : Selector) (P : Node S → Type 0)
      → ((n : Node S) → IsEntitled sel n → supports sel.client n.protocol ≡ true → P n)
      → {ns ms : List (Node S)} {d : ℕ} → Selects sel ns ms d
      → All P ms
  Selects-All sel P f done = tt
  Selects-All sel P f (hides h s) = Selects-All sel P f s
  Selects-All sel P f (drops h q s) = Selects-All sel P f s
  Selects-All sel P f (offers {n} h q s) = (f n h q, Selects-All sel P f s)

  -- A response for the client of a request whose User-Agent did not decide holds only nodes that
  -- the user is entitled to and whose protocol the client's profile supports at every version.
  pub build_skeleton-resolved :
      (to_lower trim_space : Bytes → Bytes) (req : Request) (sel : Selector)
      → (candidates : List (Node S)) (v : Version)
      → (resolve to_lower trim_space req).source ≢ from_ua
      → sel.client ≡ (resolve to_lower trim_space req).client
      → All
          (λ n.
            IsEntitled sel n
            × (supports (record { profile = sel.client.profile; version = v }) n.protocol ≡ true))
          (build_skeleton sel candidates).nodes
  build_skeleton-resolved to_lower trim_space req sel candidates v unread resolved =
      let r = resolve to_lower trim_space req in
      Selects-All sel
        (λ n.
          IsEntitled sel n
          × (supports (record { profile = sel.client.profile; version = v }) n.protocol ≡ true))
        (λ n h q.
          let offered : supports r.client n.protocol ≡ true =
            subst (λ c. supports c n.protocol ≡ true) resolved q in
          let (_, any_version) =
            resolve-supports to_lower trim_space req n.protocol v unread offered in
          (
            h,
            subst (λ c. supports (record { profile = c.profile; version = v }) n.protocol ≡ true)
                (sym resolved) any_version,
          ))
        (build_skeleton_lem sel candidates).0
