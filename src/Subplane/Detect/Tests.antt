-- ===== src/Subplane/Detect/Tests.antt =====
-- Runs of internal/subplane/detect.go, and its theorems at concrete requests. The lower case of a
-- text is that of its ASCII letters, and no text has spaces to trim.
use lumi_panel.Subplane.Detect.Ascii.{is_digit, is_word_byte}
use lumi_panel.Base.{
  ◌∷◌, length, some, ℕ, arith, inl, ◌↔◌, ◌++◌, ◌+◌, ◌&&◌, ◌≡◌, refl, true, false, [], map, pos, leb,
  if◌then◌else◌,
}
use lumi_panel.Base.Bytes.{Bytes, codes}
use lumi_panel.Subplane.Client.{mihomo, sing_box, clash_premium, base64, Version, zero_version}
use lumi_panel.Subplane.Detect.VersionScan.{parse_version, in_name, run_of, version_of_run}
use lumi_panel.Subplane.Detect.NeedleSearch.{sub, word, contains_needle}
use lumi_panel.Subplane.Detect.Digits.{decimal}
use lumi_panel.Subplane.Detect.VersionRoundTrip.{v_behind, show_version, parse_version-show_version}
use lumi_panel.Subplane.Detect.NeedleLoop.{search_word}
use lumi_panel.Subplane.Detect.NeedleTermination.{search_word-contains_needle}
use lumi_panel.Subplane.Detect.Needles.{Occurs, contains_needle_iff}
use lumi_panel.Subplane.Detect.Choice.{Decides, detect_ua_lem}
use lumi_panel.Subplane.Detect.Precedence.{Resolves, resolve_lem}
use lumi_panel.Subplane.Detect.Rules.{ua_rules, detect_ua, resolve, Request}

abbrev lower : Bytes → Bytes
lower = map (λ c. if leb b'A' c && leb c b'Z' then c + 32 else c)

abbrev same : Bytes → Bytes
same s = s

abbrev version : ℕ → ℕ → ℕ → Version
version a b c = record { major = pos a; minor = pos b; patch = pos c }

versions :
    (parse_version (codes "mihomo/1.18.1") ≡ version 1 18 1)
    × (parse_version (codes "clash.meta/v1.16.0") ≡ version 1 16 0)
    × (parse_version (codes "v2rayn/6.42") ≡ version 6 42 0)
    × (parse_version (codes "stash/2.5.3 clash/1.9.0") ≡ version 2 5 3)
    × (parse_version (codes "sing-box 1..4") ≡ version 1 0 0)
    × (parse_version (codes "karing") ≡ zero_version)
    × (parse_version (codes "x/99999999999999999999.1") ≡ zero_version)
unfolding parse_version
versions = (refl, refl, refl, refl, refl, refl, refl)

needles :
    (contains_needle (codes "instashare/1.0") (word (codes "stash")) ≡ false)
    × (contains_needle (codes "stash/2.5") (word (codes "stash")) ≡ true)
    × (contains_needle (codes "xstash stash") (word (codes "stash")) ≡ true)
    × (contains_needle (codes "clashforwindows") (sub (codes "clash")) ≡ true)
unfolding contains_needle
needles = (refl, refl, refl, refl)

detections :
    (detect_ua lower same (codes "Clash Verge Rev/2.0")
      ≡ (record { profile = mihomo; version = zero_version }, true))
    × (detect_ua lower same (codes "SFA/1.11.4")
        ≡ (record { profile = sing_box; version = version 1 11 4 }, true))
    × (detect_ua lower same (codes "ClashX/1.30")
        ≡ (record { profile = clash_premium; version = zero_version }, true))
    × (detect_ua lower same (codes "curl/8")
        ≡ (record { profile = base64; version = zero_version }, false))
unfolding detect_ua
detections = (refl, refl, refl, refl)

shown : show_version 1 (16 ∷ 0 ∷ []) ≡ codes "1.16.0"
unfolding decimal
shown = refl

-- A wrapper that names the core behind its own version: the version is the wrapper's.
wrapped :
    detect_ua lower same (codes "FlClash/2.0.1 mihomo/1.18.1")
    ≡ (record { profile = mihomo; version = version 2 0 1 }, true)
unfolding detect_ua
wrapped = refl

parse_version-show_version_example :
    parse_version (codes "clash.meta/v" ++ (show_version 1 (16 ∷ 0 ∷ []) ++ codes " (linux)"))
    ≡ version 1 16 0
parse_version-show_version_example =
    parse_version-show_version (codes "clash.meta/v") (codes " (linux)") 1 (16 ∷ 0 ∷ [])
      (unfold is_digit in
        (
          refl,
          (
            refl,
            (refl, (refl, (refl, (refl, (refl, (refl, (refl, (refl, (refl, (refl, tt)))))))))),
          ),
        ))
      (v_behind (codes "clash.meta") b'/' b'v' refl (unfold is_word_byte in refl) (inl refl))
      (unfold is_word_byte in (refl, omega arith)) (omega arith) (omega arith, (omega arith, tt))

contains_needle_iff_example :
    (contains_needle (codes "xstash stash/2") (word (codes "stash")) ≡ true)
    ↔ Occurs (codes "xstash stash/2") (word (codes "stash"))
contains_needle_iff_example =
    contains_needle_iff (codes "xstash stash/2") (word (codes "stash")) (λ e. cc)

detect_ua_lem_example :
    Decides (lower (codes "SFA/1.11.4")) ua_rules (detect_ua lower same (codes "SFA/1.11.4"))
detect_ua_lem_example = detect_ua_lem lower same (codes "SFA/1.11.4")

abbrev asked : Request
asked = record {
  target = [];
  flag = codes "Meta";
  user_agent = codes "SFA/1.11.4";
  user_preference = [];
}

resolve_lem_example : Resolves lower same asked (resolve lower same asked)
resolve_lem_example = resolve_lem lower same asked

search_word-contains_needle_example :
    search_word (length (codes "xstash stash/2") + 1) (codes "xstash stash/2") (codes "stash") 0
    ≡ some (contains_needle (codes "xstash stash/2") (word (codes "stash")))
search_word-contains_needle_example =
    search_word-contains_needle (codes "xstash stash/2") (codes "stash") (λ e. cc)

abbrev product : Bytes
product = codes "v2rayN 4a/1.2.3rc 5.6-beta"

scans : parse_version product ≡ version 5 6 0
unfolding parse_version is_digit in_name run_of version_of_run
scans = refl

-- The second digit of a number that ends a name counts as a version.
scans_name : parse_version (codes "mihomo/alpha-ab19") ≡ version 9 0 0
unfolding parse_version is_digit in_name run_of version_of_run
scans_name = refl
