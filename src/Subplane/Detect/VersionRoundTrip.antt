-- ===== src/Subplane/Detect/VersionRoundTrip.antt =====
-- `parseVersion` of internal/subplane/detect.go on a User-Agent that carries a version.
use lumi_panel.Base.{
  List, map, ◌∙◌, ℕ, ◌^◌, ◌<◌, ◌≡◌, ◌≢◌, ◌⊎◌, inl, inr, refl, arith, true, false, ◌||◌, [], ◌∷◌,
  ◌++◌, pos, ◌==◌, All, All-append, All-imp,
}
use lumi_panel.Subplane.Client.{Version}
use lumi_panel.Base.Bytes.{Bytes, onto, onto-append}
use lumi_panel.Subplane.Detect.Ascii.{is_digit, is_alpha, is_word_byte, at_head}
use lumi_panel.Subplane.Detect.VersionScan.{
  in_name, run_of, version_of_run, parse_version_from, parse_version,
}
use lumi_panel.Subplane.Detect.Digits.{
  AreDigits, IsNumeral, decimal, decimal-IsNumeral, value-decimal,
}
use lumi_panel.Subplane.Detect.Dotted.{Dotted, spelled, version_of_run-Dotted}

-- A text that holds no digit.
abbrev pub HasNoDigit : Bytes → Type 0
HasNoDigit = All (λ c. is_digit c ≡ false)

-- What a version may stand behind: nothing, a byte that is no letter, or a `v` that starts a word.
pub data Introduces (s : Bytes) : Type 0 where
  at_start : s ≡ [] → Introduces s
  behind : (p : Bytes) (c : ℕ) → s ≡ p ++ (c ∷ []) → is_alpha c ≡ false → Introduces s
  v_at_start : (v : ℕ) → s ≡ v ∷ [] → (v ≡ b'v') ⊎ (v ≡ b'V') → Introduces s
  v_behind :
      (p : Bytes) (c v : ℕ)
      → s ≡ p ++ (c ∷ (v ∷ []))
      → is_word_byte c ≡ false
      → (v ≡ b'v') ⊎ (v ≡ b'V')
      → Introduces s

-- What may follow a version: nothing, or a byte that is no letter, digit or dot.
abbrev pub Ends : Bytes → Type 0
Ends [] = Unit
Ends (c ∷ _) = (is_word_byte c ≡ false) × (c ≢ b'.')

Introduces-in_name : (s : Bytes) → Introduces s → in_name (onto [] s) ≡ false
unfolding in_name onto
Introduces-in_name s (at_start e) = rw e refl
Introduces-in_name s (behind p c e h) = rw (e, onto-append [] p (c ∷ []), h) refl
Introduces-in_name s (v_at_start v e (inl h)) = rw (e, h) refl
Introduces-in_name s (v_at_start v e (inr h)) = rw (e, h) refl
Introduces-in_name s (v_behind p c v e w (inl h)) =
    rw (e, onto-append [] p (c ∷ (v ∷ [])), h, w) refl
Introduces-in_name s (v_behind p c v e w (inr h)) =
    rw (e, onto-append [] p (c ∷ (v ∷ [])), h, w) refl

-- The scan passes over what holds no digit.
parse_version_from-append :
    (s before t : Bytes)
    → HasNoDigit s
    → parse_version_from 0 before (s ++ t) ≡ parse_version_from 0 (onto before s) t
unfolding parse_version_from onto
parse_version_from-append [] before t h = refl
parse_version_from-append (c ∷ s) before t (h, hs) =
    rw h (parse_version_from-append s (c ∷ before) t hs)

abbrev IsRunByte : ℕ → Type 0
IsRunByte c = (is_digit c || c == b'.') ≡ true

run_of-append : (s t : Bytes) → All IsRunByte s → run_of t ≡ ([], t) → run_of (s ++ t) ≡ (s, t)
unfolding run_of
run_of-append [] t h e = e
run_of-append (c ∷ s) t (h, hs) e = rw (run_of-append s t hs e, h) refl

Ends-run_of : (t : Bytes) → Ends t → run_of t ≡ ([], t)
unfolding run_of is_word_byte
Ends-run_of [] h = refl
Ends-run_of (c ∷ t) (w, d) = ground (arith, w, d)

Ends-at_head : (t : Bytes) → Ends t → at_head is_alpha t ≡ false
unfolding is_word_byte
Ends-at_head [] h = refl
Ends-at_head (c ∷ t) (w, d) = ground (arith, w)

AreDigits-run : (s : Bytes) → AreDigits s → All IsRunByte s
AreDigits-run = All-imp (λ c. is_digit c ≡ true) IsRunByte (λ c h. rw h refl)

Dotted-run :
    (p : Bytes) (ps : List Bytes) → IsNumeral p → All IsNumeral ps → All IsRunByte (Dotted p ps)
unfolding is_digit
Dotted-run p [] h hs = AreDigits-run p h.digits
Dotted-run p (q ∷ qs) h (k, ks) =
    All-append IsRunByte p (b'.' ∷ Dotted q qs) (AreDigits-run p h.digits)
      (refl, Dotted-run q qs k ks)

-- At a version that stands free the scan reads it.
parse_version_from-run :
    (before s t : Bytes)
    → in_name before ≡ false
    → at_head is_digit s ≡ true
    → All IsRunByte s
    → Ends t
    → parse_version_from 0 before (s ++ t) ≡ version_of_run s
unfolding parse_version_from
parse_version_from-run before [] t b d h e = absurd (cc)
parse_version_from-run before (c ∷ s) t b d (h, hs) e =
    rw (d, b, run_of-append s t hs (Ends-run_of t e), Ends-at_head t e) refl

at_head-Dotted : (p : Bytes) (ps : List Bytes) → IsNumeral p → at_head is_digit (Dotted p ps) ≡ true
at_head-Dotted [] ps h = absurd (h.some_digit refl)
at_head-Dotted (c ∷ p) [] h = h.digits.0
at_head-Dotted (c ∷ p) (q ∷ qs) h = h.digits.0

-- Behind a prefix with no digit that introduces it, and in front of a byte that ends it, a run of
-- numerals with dots between them is read as what they spell, leading zeros allowed.
parse_version-numerals :
    (pre p post : Bytes) (ps : List Bytes)
    → HasNoDigit pre
    → Introduces pre
    → IsNumeral p
    → All IsNumeral ps
    → Ends post
    → parse_version (pre ++ (Dotted p ps ++ post)) ≡ spelled p ps
unfolding parse_version
parse_version-numerals pre p post ps hp hi h hs he =
    rw
      (
        parse_version_from-append pre [] (Dotted p ps ++ post) hp,
        parse_version_from-run (onto [] pre) (Dotted p ps) post (Introduces-in_name pre hi)
            (at_head-Dotted p ps h) (Dotted-run p ps h hs) he,
      )
      (version_of_run-Dotted p ps h hs)

-- The text that a client writes for a version: decimal numbers with dots between them.
abbrev pub show_version : ℕ → List ℕ → Bytes
show_version n ns = Dotted (decimal n) (map decimal ns)

-- The version of the first three numbers, where one that is not there counts as zero.
abbrev pub version_of : ℕ → List ℕ → Version
version_of x [] = record { major = pos x; minor = pos 0; patch = pos 0 }
version_of x (y ∷ []) = record { major = pos x; minor = pos y; patch = pos 0 }
version_of x (y ∷ (z ∷ _)) = record { major = pos x; minor = pos y; patch = pos z }

decimals-IsNumeral : (ns : List ℕ) → All (λ m. m < 2 ^ 63) ns → All IsNumeral (map decimal ns)
decimals-IsNumeral [] h = tt
decimals-IsNumeral (n ∷ ns) (h, hs) = (decimal-IsNumeral n h, decimals-IsNumeral ns hs)

spelled-decimal : (n : ℕ) (ns : List ℕ) → spelled (decimal n) (map decimal ns) ≡ version_of n ns
spelled-decimal x [] = rw (value-decimal x) refl
spelled-decimal x (y ∷ []) = rw (value-decimal x, value-decimal y) refl
spelled-decimal x (y ∷ (z ∷ ns)) = rw (value-decimal x, value-decimal y, value-decimal z) refl

-- `parseVersion` gives back the version that a User-Agent shows as decimal numbers below 2^63 with
-- dots between them, one number or more: the first three, where one that is not there counts as
-- zero. It may stand behind a text with no digit that is empty, ends in a byte that is no letter,
-- or ends in a `v` or `V` that starts a word, and in front of the end or of a byte that is no
-- letter, digit or dot, whatever follows that byte.
pub parse_version-show_version :
    (pre post : Bytes) (n : ℕ) (ns : List ℕ)
    → HasNoDigit pre
    → Introduces pre
    → Ends post
    → n < 2 ^ 63
    → All (λ m. m < 2 ^ 63) ns
    → parse_version (pre ++ (show_version n ns ++ post)) ≡ version_of n ns
parse_version-show_version pre post n ns hp hi he h hs =
    let numerals = decimals-IsNumeral ns hs in
    parse_version-numerals pre (decimal n) post (map decimal ns) hp hi (decimal-IsNumeral n h)
      numerals he
    ∙ spelled-decimal n ns
