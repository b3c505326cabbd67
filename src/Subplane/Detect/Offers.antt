-- ===== src/Subplane/Detect/Offers.antt =====
-- What a client that internal/subplane/detect.go resolves is offered by the capability matrix.
use Prim.Native.String.{String}
use mathlib.Core.Path.{subst}
use lumi_panel.Base.{◌≡◌, ◌≢◌, ◌∙◌, refl, sym, ap, true, List, [], ◌∷◌, ◌++◌, All}
use lumi_panel.Base.Bytes.{Bytes}
use lumi_panel.Subplane.Client.{Profile, unknown_profile, Version, zero_version, Client}
use lumi_panel.Subplane.Capability.{Protocol, supports}
use lumi_panel.Subplane.Capability.Laws.{supports_safe}
use lumi_panel.Subplane.Detect.Rules.{UaRule, ua_rules, Request, from_ua, Resolution, resolve}
use lumi_panel.Subplane.Detect.Choice.{IsFirst}
use lumi_panel.Subplane.Detect.Names.{names_of}
use lumi_panel.Subplane.Detect.Precedence.{
  Asks, Resolves, by_target, by_flag, by_ua, by_preference, by_fallback, resolve_lem,
}

Asks-known :
    (to_lower trim_space : Bytes → Bytes) (s : Bytes) (p : Profile)
    → Asks to_lower trim_space s p
    → (t : String) → p ≢ unknown_profile t
unfolding names_of
Asks-known to_lower trim_space s p a t e = (rw e at a)

ua_rules-known : All (λ r. (t : String) → r.profile ≢ unknown_profile t) ua_rules
unfolding ua_rules
ua_rules-known = (
  λ t e. cc,
  (λ t e. cc, (λ t e. cc, (λ t e. cc, (λ t e. cc, (λ t e. cc, (λ t e. cc, (λ t e. cc, tt))))))),
)

All-middle : (P : UaRule → Type 0) (xs ys : List UaRule) (y : UaRule) → All P (xs ++ (y ∷ ys)) → P y
All-middle P [] ys y h = h.0
All-middle P (x ∷ xs) ys y h = All-middle P xs ys y h.1

IsFirst-known :
    (l : Bytes) (c : Client) → IsFirst l ua_rules c → (t : String) → c.profile ≢ unknown_profile t
IsFirst-known l c f =
    let KnownRule : UaRule → Type 0 = λ r. (t : String) → r.profile ≢ unknown_profile t in
    let known =
      All-middle KnownRule f.passed f.later f.rule
        (subst (All KnownRule) f.in_order ua_rules-known) in
    λ t e. known t (sym f.profile_of ∙ e)

-- What the rest of the package relies on in a resolved client.
record IsSound (r : Resolution) : Type 0 where
  known : (t : String) → r.client.profile ≢ unknown_profile t
  unversioned : r.source ≢ from_ua → r.client.version ≡ zero_version

Resolves-IsSound :
    (to_lower trim_space : Bytes → Bytes) (req : Request) (r : Resolution)
    → Resolves to_lower trim_space req r
    → IsSound r
Resolves-IsSound to_lower trim_space req _ (by_target p a) = record {
  known = Asks-known to_lower trim_space req.target p a;
  unversioned = λ _. refl;
}
Resolves-IsSound to_lower trim_space req _ (by_flag p _ a) = record {
  known = Asks-known to_lower trim_space req.flag p a;
  unversioned = λ _. refl;
}
Resolves-IsSound to_lower trim_space req _ (by_ua c _ _ f) = record {
  known = IsFirst-known (to_lower req.user_agent) c f;
  unversioned = λ n. absurd (n refl);
}
Resolves-IsSound to_lower trim_space req _ (by_preference p _ _ _ a) = record {
  known = Asks-known to_lower trim_space req.user_preference p a;
  unversioned = λ _. refl;
}
Resolves-IsSound to_lower trim_space req _ (by_fallback _ _ _ _) = record {
  known = λ t e. cc;
  unversioned = λ _. refl;
}

-- Where the User-Agent did not decide, the resolved client has a known profile, and a protocol that
-- it is offered is one that this profile supports at every version.
pub resolve-supports :
    (to_lower trim_space : Bytes → Bytes) (req : Request) (proto : Protocol) (v : Version)
    → let r = resolve to_lower trim_space req in
      r.source ≢ from_ua
      → supports r.client proto ≡ true
      → ((t : String) → r.client.profile ≢ unknown_profile t)
        × (supports (record { profile = r.client.profile; version = v }) proto ≡ true)
resolve-supports to_lower trim_space req proto v n h =
    let r = resolve to_lower trim_space req in
    let sound = Resolves-IsSound to_lower trim_space req r (resolve_lem to_lower trim_space req) in
    let unversioned : r.client ≡ record { profile = r.client.profile; version = zero_version } =
      ap (λ w. record { profile = r.client.profile; version = w }) (sound.unversioned n) in
    let offered : supports (record { profile = r.client.profile; version = zero_version }) proto
        ≡ true =
      subst (λ c. supports c proto ≡ true) unversioned h in
    (
      sound.known,
      (supports_safe (record { profile = r.client.profile; version = v }) proto).0 offered,
    )
