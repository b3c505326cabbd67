-- ===== src/Subplane/Detect/Choice.antt =====
-- What `DetectUA` and `Resolve` of internal/subplane/detect.go choose.
use lumi_panel.Base.{
  ◌≡◌, ◌⊎◌, inl, inr, ◌↔◌, refl, ap, arith, Bool, true, false, Bool-cases, List, [], ◌∷◌, ◌++◌, All,
  Any,
}
use lumi_panel.Base.Bytes.{Bytes}
use lumi_panel.Subplane.Client.{zero_version, Client}
use lumi_panel.Subplane.Detect.VersionScan.{parse_version}
use lumi_panel.Subplane.Detect.NeedleSearch.{Needle}
use lumi_panel.Subplane.Detect.Needles.{Occurs, Occurs-contains_needle, contains_needle-Occurs}
use lumi_panel.Subplane.Detect.Rules.{
  UaRule, ua_rules, profile_fallback, any_needle, client_of, first_match, detect_ua,
}

-- Some needle of the rule stands in the text.
abbrev pub Matches : Bytes → UaRule → Type 0
Matches l rule = Any (Occurs l) rule.needles

any_needle_iff : (l : Bytes) (ns : List Needle) → (any_needle l ns ≡ true) ↔ Any (Occurs l) ns
unfolding any_needle
any_needle_iff l [] = (λ h. absurd (cc), λ h. absurd h)
any_needle_iff l (n ∷ ns) =
    ground (arith, contains_needle-Occurs l n, Occurs-contains_needle l n, any_needle_iff l ns)

-- The client of the first rule that matches.
pub record IsFirst (l : Bytes) (rules : List UaRule) (c : Client) : Type 0 where
  pub passed : List UaRule
  pub rule : UaRule
  pub later : List UaRule
  pub in_order : rules ≡ passed ++ (rule ∷ later)
  pub passed_over : All (λ r. ¬ Matches l r) passed
  pub matches : Matches l rule
  pub profile_of : c.profile ≡ rule.profile
  pub version_read : rule.core_version ≡ true → c.version ≡ parse_version l
  pub version_withheld : rule.core_version ≡ false → c.version ≡ zero_version

-- What a look at the rules decides.
abbrev pub Decides : Bytes → List UaRule → Client × Bool → Type 0
Decides l rules (c, matched) =
    ((matched ≡ true) × IsFirst l rules c)
    ⊎ ((matched ≡ false)
        × (All (λ r. ¬ Matches l r) rules)
        × (c ≡ record { profile = profile_fallback; version = zero_version }))

client_of-IsFirst :
    (l : Bytes) (rule : UaRule) (rules : List UaRule)
    → Matches l rule
    → IsFirst l (rule ∷ rules) (client_of l rule)
unfolding client_of
client_of-IsFirst l rule rules m = record {
  passed = [];
  rule = rule;
  later = rules;
  in_order = refl;
  passed_over = tt;
  matches = m;
  profile_of = refl;
  version_read = λ e. rw e refl;
  version_withheld = λ e. rw e refl;
}

Decides-pass :
    (l : Bytes) (rule : UaRule) (rules : List UaRule) (r : Client × Bool)
    → ¬ Matches l rule
    → Decides l rules r
    → Decides l (rule ∷ rules) r
Decides-pass l rule rules (c, matched) n (inl (e, f)) = inl (
  e,
  record {
    passed = rule ∷ f.passed;
    rule = f.rule;
    later = f.later;
    in_order = ap (λ rs. rule ∷ rs) f.in_order;
    passed_over = (n, f.passed_over);
    matches = f.matches;
    profile_of = f.profile_of;
    version_read = f.version_read;
    version_withheld = f.version_withheld;
  },
)
Decides-pass l rule rules (c, matched) n (inr (e, none_match, f)) = inr (e, (n, none_match), f)

first_match-Decides : (l : Bytes) (rules : List UaRule) → Decides l rules (first_match l rules)
unfolding first_match
first_match-Decides l [] = inr (refl, tt, refl)
first_match-Decides l (rule ∷ rules) = elim (Bool-cases (any_needle l rule.needles)) [
  | inl e ↦ rw e (inl (refl, client_of-IsFirst l rule rules ((any_needle_iff l rule.needles).0 e)))
  | inr e ↦ rw e (
      Decides-pass l rule rules (first_match l rules)
        (λ m. absurd (ground (arith, (any_needle_iff l rule.needles).1 m)))
        (first_match-Decides l rules))
]

-- `strings.ToLower` is any function. `DetectUA` serves the client of the first rule of the list
-- that has a needle in the lower-cased User-Agent: with the profile of the rule, and with the
-- version read there if the rule trusts it and with none if not. Exactly when no rule has one it
-- serves the fallback profile without a version and reports that nothing matched.
pub detect_ua_lem :
    (to_lower trim_space : Bytes → Bytes) (ua : Bytes)
    → Decides (to_lower ua) ua_rules (detect_ua to_lower trim_space ua)
unfolding detect_ua
detect_ua_lem to_lower trim_space ua = first_match-Decides (to_lower ua) ua_rules
