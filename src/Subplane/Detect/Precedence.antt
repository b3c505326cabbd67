-- ===== src/Subplane/Detect/Precedence.antt =====
-- Which signal of a request `Resolve` of internal/subplane/detect.go follows.
use lumi_panel.Base.{◌≡◌, inl, inr, ◌↔◌, true, false, none, some, Option-cases, All}
use lumi_panel.Base.Bytes.{Bytes}
use lumi_panel.Subplane.Client.{Profile, Client}
use lumi_panel.Subplane.Detect.Rules.{
  ua_rules, profile_fallback, Request, from_target, from_flag, from_ua, from_user_preference,
  from_fallback, Resolution, chosen, detect_ua, parse_profile, resolve_ua, resolve,
}
use lumi_panel.Subplane.Detect.Choice.{Matches, IsFirst, detect_ua_lem}
use lumi_panel.Subplane.Detect.Names.{
  names_of, IsNameOf, is_any_iff, IsNameOf-profile_named, named-is_any,
}

module _ (to_lower trim_space : Bytes → Bytes) where
  -- `parseProfile` knows a text exactly as the profile that has it, lower-cased and trimmed, among
  -- its names, and so no text as two profiles and none as an unknown one.
  pub parse_profile_iff :
      (s : Bytes) (p : Profile)
      → (parse_profile to_lower trim_space s ≡ some p) ↔ IsNameOf (to_lower (trim_space s)) p
  unfolding parse_profile
  parse_profile_iff s p =
      let l = to_lower (trim_space s) in
      (λ h. (is_any_iff l (names_of p)).0 (named-is_any l p h), IsNameOf-profile_named l p)

  -- A text that a request writes for a profile, and one that names none.
  abbrev pub Asks : Bytes → Profile → Type 0
  Asks s p = IsNameOf (to_lower (trim_space s)) p

  abbrev pub AsksNothing : Bytes → Type 0
  AsksNothing s = (p : Profile) → ¬ Asks s p

  AsksNothing-parse_profile :
      (s : Bytes) → parse_profile to_lower trim_space s ≡ none → AsksNothing s
  AsksNothing-parse_profile s h p a = absurd (cc (h, (parse_profile_iff s p).1 a))

  -- The signals in the order in which they are followed, each with what the ones before it lack.
  pub data Resolves (req : Request) : Resolution → Type 0 where
    by_target : (p : Profile) → Asks req.target p → Resolves req (chosen p from_target false)
    by_flag :
        (p : Profile)
        → AsksNothing req.target
        → Asks req.flag p
        → Resolves req (chosen p from_flag false)
    by_ua :
        (c : Client)
        → AsksNothing req.target
        → AsksNothing req.flag
        → IsFirst (to_lower req.user_agent) ua_rules c
        → Resolves req (record { client = c; source = from_ua; unknown_ua = false })
    by_preference :
        (p : Profile)
        → AsksNothing req.target
        → AsksNothing req.flag
        → All (λ r. ¬ Matches (to_lower req.user_agent) r) ua_rules
        → Asks req.user_preference p
        → Resolves req (chosen p from_user_preference true)
    by_fallback :
        AsksNothing req.target
        → AsksNothing req.flag
        → All (λ r. ¬ Matches (to_lower req.user_agent) r) ua_rules
        → AsksNothing req.user_preference
        → Resolves req (chosen profile_fallback from_fallback true)

  resolve_preference :
      (req : Request)
      → AsksNothing req.target
      → AsksNothing req.flag
      → All (λ r. ¬ Matches (to_lower req.user_agent) r) ua_rules
      → Resolves req (
          let r : Resolution = elim (parse_profile to_lower trim_space req.user_preference) [
            | some p ↦ chosen p from_user_preference true
            | none ↦ chosen profile_fallback from_fallback true
          ] in
          r)
  resolve_preference req nt nf nu =
      elim (Option-cases (parse_profile to_lower trim_space req.user_preference)) [
        | inl e ↦ rw e (by_fallback nt nf nu (AsksNothing-parse_profile req.user_preference e))
        | inr (p, e) ↦
            rw e (by_preference p nt nf nu ((parse_profile_iff req.user_preference p).0 e))
      ]

  resolve_ua-Resolves :
      (req : Request)
      → AsksNothing req.target
      → AsksNothing req.flag
      → Resolves req (resolve_ua to_lower trim_space req)
  unfolding resolve_ua
  resolve_ua-Resolves req nt nf = elim (detect_ua_lem to_lower trim_space req.user_agent) [
    | inl (e, f) ↦ rw e (by_ua (detect_ua to_lower trim_space req.user_agent).0 nt nf f)
    | inr (e, nu, _) ↦ rw e (resolve_preference req nt nf nu)
  ]

  -- `strings.ToLower` and `strings.TrimSpace` are any functions. `Resolve` follows the target
  -- parameter if it names a profile, else the flag if it does, else the first rule that matches the
  -- User-Agent, else the stored preference if it names a profile, else the fallback: the result has
  -- the profile and the source of that signal, a version only from a User-Agent, and marks the
  -- User-Agent as unknown exactly in the last two cases, so never where the target or the flag
  -- names a profile.
  pub resolve_lem : (req : Request) → Resolves req (resolve to_lower trim_space req)
  unfolding resolve
  resolve_lem req = elim (Option-cases (parse_profile to_lower trim_space req.target)) [
    | inr (p, e) ↦ rw (e, resolve) (by_target p ((parse_profile_iff req.target p).0 e))
    | inl e ↦
        let nt = AsksNothing-parse_profile req.target e in
        elim (Option-cases (parse_profile to_lower trim_space req.flag)) [
          | inr (p, f) ↦ rw (e, f, resolve) (by_flag p nt ((parse_profile_iff req.flag p).0 f))
          | inl f ↦
              rw (e, f, resolve) (resolve_ua-Resolves req nt (AsksNothing-parse_profile req.flag f))
        ]
  ]
