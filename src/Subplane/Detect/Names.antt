-- ===== src/Subplane/Detect/Names.antt =====
-- The names by which a request asks internal/subplane/detect.go for a profile.
use lumi_panel.Base.{◌≡◌, ◌↔◌, refl, arith, true, some, List, [], ◌∷◌, All, Any, All-Any}
use lumi_panel.Base.Bytes.{Bytes, codes, eq_bytes_iff}
use lumi_panel.Subplane.Client.{Profile, mihomo, sing_box, clash_premium, base64, unknown_profile}
use lumi_panel.Subplane.Detect.Rules.{is_any, profile_named}

-- The names of a profile that a request may write.
unfoldable pub names_of : Profile → List Bytes
names_of mihomo = codes "mihomo" ∷ (codes "clash.meta" ∷ (codes "clashmeta" ∷ (codes "meta" ∷ [])))
names_of sing_box = codes "singbox" ∷ (codes "sing-box" ∷ [])
names_of clash_premium = codes "clash" ∷ []
names_of base64 = codes "base64" ∷ (codes "v2ray" ∷ (codes "list" ∷ []))
names_of (unknown_profile _) = []

abbrev pub IsNameOf : Bytes → Profile → Type 0
IsNameOf s p = Any (λ t. s ≡ t) (names_of p)

pub is_any_iff : (s : Bytes) (ts : List Bytes) → (is_any s ts ≡ true) ↔ Any (λ t. s ≡ t) ts
unfolding is_any
is_any_iff s [] = (λ h. absurd (cc), λ h. absurd h)
is_any_iff s (t ∷ ts) = ground (arith, eq_bytes_iff s t, is_any_iff s ts)

-- The names of the profiles differ.
names_told : (p : Profile) → All (λ s. profile_named s ≡ some p) (names_of p)
unfolding profile_named names_of
names_told mihomo = (refl, (refl, (refl, (refl, tt))))
names_told sing_box = (refl, (refl, tt))
names_told clash_premium = (refl, tt)
names_told base64 = (refl, (refl, (refl, tt)))
names_told (unknown_profile s) = tt

pub IsNameOf-profile_named : (s : Bytes) (p : Profile) → IsNameOf s p → profile_named s ≡ some p
IsNameOf-profile_named s p h =
    let (t, (told, e)) =
      All-Any (λ x. profile_named x ≡ some p) (λ t. s ≡ t) (names_of p) (names_told p) h in
    rw e told

pub named-is_any :
    (s : Bytes) (p : Profile) → profile_named s ≡ some p → is_any s (names_of p) ≡ true
unfolding profile_named names_of
named-is_any s mihomo h = ground arith
named-is_any s sing_box h = ground arith
named-is_any s clash_premium h = ground arith
named-is_any s base64 h = ground arith
named-is_any s (unknown_profile t) h = ground arith
