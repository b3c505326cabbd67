-- ===== src/Subplane/Detect/Rules.antt =====
-- internal/subplane/detect.go: the rules for a User-Agent, and which client a request is served as.
use lumi_panel.Base.{Bool, true, false, not, ◌||◌, Option, none, some, List, [], ◌∷◌, if◌then◌else◌}
use lumi_panel.Base.Bytes.{Bytes, codes, eq_bytes}
use lumi_panel.Subplane.Client.{
  Profile, mihomo, sing_box, clash_premium, base64, zero_version, Client,
}
use lumi_panel.Subplane.Detect.VersionScan.{parse_version}
use lumi_panel.Subplane.Detect.NeedleSearch.{Needle, sub, word, contains_needle}

pub record UaRule : Type 0 where
  pub needles : List Needle
  pub profile : Profile
  pub core_version : Bool

unfoldable pub ua_rules : List UaRule
ua_rules =
    record {
      needles =
          sub (codes "mihomo")
          ∷ sub (codes "clash.meta")
          ∷ sub (codes "clash-meta")
          ∷ sub (codes "clash meta")
          ∷ [];
      profile = mihomo;
      core_version = true;
    }
    ∷ record {
      needles =
          sub (codes "clash-verge")
          ∷ sub (codes "clash verge")
          ∷ sub (codes "clashmeta")
          ∷ sub (codes "clashx meta")
          ∷ word (codes "cmfa")
          ∷ sub (codes "flclash")
          ∷ word (codes "nikki")
          ∷ [];
      profile = mihomo;
      core_version = false;
    }
    ∷ record {
      needles = sub (codes "hiddifyclash") ∷ sub (codes "hiddify clash") ∷ [];
      profile = clash_premium;
      core_version = false;
    }
    ∷ record {
      needles =
          sub (codes "sing-box")
          ∷ word (codes "sfa")
          ∷ word (codes "sfi")
          ∷ word (codes "sfm")
          ∷ [];
      profile = sing_box;
      core_version = true;
    }
    ∷ record {
      needles = sub (codes "hiddify") ∷ word (codes "karing") ∷ [];
      profile = sing_box;
      core_version = false;
    }
    ∷ record { needles = word (codes "stash") ∷ []; profile = mihomo; core_version = false }
    ∷ record {
      needles = sub (codes "clash") ∷ word (codes "cfa") ∷ [];
      profile = clash_premium;
      core_version = false;
    }
    ∷ record {
      needles =
          sub (codes "shadowrocket")
          ∷ sub (codes "v2rayn")
          ∷ sub (codes "v2rayng")
          ∷ sub (codes "nekobox")
          ∷ sub (codes "nekoray")
          ∷ word (codes "throne")
          ∷ [];
      profile = base64;
      core_version = false;
    }
    ∷ []

abbrev pub profile_fallback : Profile
profile_fallback = base64

-- The inner loop of `DetectUA`: some needle of the rule is there.
unfoldable pub any_needle : Bytes → List Needle → Bool
unfolding contains_needle
any_needle l [] = false
any_needle l (n ∷ needles) =
    let rest = any_needle l needles in if not (contains_needle l n) then rest else true

unfoldable pub client_of : Bytes → UaRule → Client
unfolding parse_version
client_of l rule = record {
  profile = rule.profile;
  version = if rule.core_version then parse_version l else zero_version;
}

unfoldable pub first_match : Bytes → List UaRule → Client × Bool
unfolding any_needle client_of
first_match l [] = (record { profile = profile_fallback; version = zero_version }, false)
first_match l (rule ∷ rules) =
    let rest = first_match l rules in
    if any_needle l rule.needles then (client_of l rule, true) else rest

pub record Request : Type 0 where
  pub target : Bytes
  pub flag : Bytes
  pub user_agent : Bytes
  pub user_preference : Bytes

-- The strings of `Resolution.Source`.
pub data Source : Type 0 where
  from_target : Source
  from_flag : Source
  from_ua : Source
  from_user_preference : Source
  from_fallback : Source

pub record Resolution : Type 0 where
  pub client : Client
  pub source : Source
  pub unknown_ua : Bool

-- One case of a `switch` on a string.
unfoldable pub is_any : Bytes → List Bytes → Bool
unfolding eq_bytes
is_any s [] = false
is_any s (t ∷ ts) = eq_bytes s t || is_any s ts

-- The cases of the `switch` of `parseProfile`.
unfoldable pub profile_named : Bytes → Option Profile
unfolding is_any
profile_named s =
    if is_any s (codes "mihomo" ∷ codes "clash.meta" ∷ codes "clashmeta" ∷ codes "meta" ∷ [])
    then some mihomo
    else if is_any s (codes "singbox" ∷ codes "sing-box" ∷ [])
    then some sing_box
    else if is_any s (codes "clash" ∷ [])
    then some clash_premium
    else if is_any s (codes "base64" ∷ codes "v2ray" ∷ codes "list" ∷ [])
    then some base64
    else none

-- An explicit choice carries no version.
abbrev pub chosen : Profile → Source → Bool → Resolution
chosen p source unknown_ua = record {
  client = record { profile = p; version = zero_version };
  source = source;
  unknown_ua = unknown_ua;
}

-- `strings.ToLower` and `strings.TrimSpace` go by Unicode's tables, which are parameters.
module _ (to_lower trim_space : Bytes → Bytes) where
  unfoldable pub detect_ua : Bytes → Client × Bool
  unfolding first_match ua_rules
  detect_ua ua = first_match (to_lower ua) ua_rules

  unfoldable pub parse_profile : Bytes → Option Profile
  unfolding profile_named
  parse_profile s = profile_named (to_lower (trim_space s))

  -- `Resolve` from the test of the User-Agent on.
  unfoldable pub resolve_ua : Request → Resolution
  unfolding detect_ua parse_profile
  resolve_ua req =
      let (c, matched) = detect_ua req.user_agent in
      if matched
      then record { client = c; source = from_ua; unknown_ua = false }
      else elim (parse_profile req.user_preference) [
        | some p ↦ chosen p from_user_preference true
        | none ↦ chosen profile_fallback from_fallback true
      ]

  unfoldable pub resolve : Request → Resolution
  unfolding resolve_ua parse_profile
  resolve req = elim (parse_profile req.target) [
    | some p ↦ chosen p from_target false
    | none ↦ elim (parse_profile req.flag) [
      | some p ↦ chosen p from_flag false
      | none ↦ resolve_ua req
    ]
  ]
