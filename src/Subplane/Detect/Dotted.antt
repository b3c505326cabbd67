-- ===== src/Subplane/Detect/Dotted.antt =====
-- Dotted numbers as `parseVersion` of internal/subplane/detect.go takes them apart.
use lumi_panel.Base.{
  ℤ, List, All, suc, ◌∙◌, ap, ℕ, ◌≡◌, ◌≢◌, refl, arith, true, false, ◌&&◌, [], ◌∷◌, ◌++◌, pos, ◌==◌,
  if◌then◌else◌,
}
use lumi_panel.Base.Bytes.{Bytes, is_empty, split, trim, trim_left, trim_right}
use lumi_panel.Subplane.Detect.Ascii.{is_digit}
use lumi_panel.Subplane.Detect.VersionScan.{set_part, read_parts, version_of_run}
use lumi_panel.Subplane.Client.{Version, zero_version}
use lumi_panel.Subplane.Detect.Digits.{AreDigits, IsNumeral, value, atoi-value}

-- A numeral, and more numerals behind dots.
abbrev pub Dotted : Bytes → List Bytes → Bytes
Dotted p [] = p
Dotted p (q ∷ qs) = p ++ (b'.' ∷ Dotted q qs)

digit-ne-dot : (c : ℕ) → is_digit c ≡ true → (c == b'.') ≡ false
unfolding is_digit
digit-ne-dot c h = ground arith

-- Digits in front of a text join its first part.
split-digits :
    (s rest : Bytes) → AreDigits s → split (s ++ (b'.' ∷ rest)) b'.' ≡ s ∷ split rest b'.'
unfolding split
split-digits [] rest h = refl
split-digits (c ∷ s) rest (h, hs) = rw (digit-ne-dot c h, split-digits s rest hs) refl

split-digits_last : (s : Bytes) → AreDigits s → split s b'.' ≡ s ∷ []
unfolding split
split-digits_last [] h = refl
split-digits_last (c ∷ s) (h, hs) = rw (digit-ne-dot c h, split-digits_last s hs) refl

trim_right-digits : (s : Bytes) → AreDigits s → trim_right s b'.' ≡ s
unfolding trim_right
trim_right-digits [] h = refl
trim_right-digits (c ∷ s) (h, hs) = rw (digit-ne-dot c h, trim_right-digits s hs) refl

-- A text that ends in a digit keeps its right end.
append-ne-nil : (s t : Bytes) → t ≢ [] → s ++ t ≢ []
append-ne-nil [] t n = n
append-ne-nil (c ∷ s) t n = λ e. cc

keep_end : (c : ℕ) (s : Bytes) → s ≢ [] → (if c == b'.' && is_empty s then [] else c ∷ s) ≡ c ∷ s
keep_end c [] n = absurd (n refl)
keep_end c (d ∷ s) n = ground arith

trim_right-append :
    (s : Bytes) (t : Bytes) → t ≢ [] → trim_right t b'.' ≡ t → trim_right (s ++ t) b'.' ≡ s ++ t
unfolding trim_right
trim_right-append [] t n h = h
trim_right-append (c ∷ s) t n h =
    rw (trim_right-append s t n h) (keep_end c (s ++ t) (append-ne-nil s t n))

trim_left-numeral : (s rest : Bytes) → s ≢ [] → AreDigits s → trim_left (s ++ rest) b'.' ≡ s ++ rest
unfolding trim_left
trim_left-numeral [] rest n h = absurd (n refl)
trim_left-numeral (c ∷ s) rest n (h, hs) = rw (digit-ne-dot c h) refl

trim_left-digits : (s : Bytes) → s ≢ [] → AreDigits s → trim_left s b'.' ≡ s
unfolding trim_left
trim_left-digits [] n h = absurd (n refl)
trim_left-digits (c ∷ s) n (h, hs) = rw (digit-ne-dot c h) refl

trim_left-Dotted :
    (p : Bytes) (ps : List Bytes) → IsNumeral p → trim_left (Dotted p ps) b'.' ≡ Dotted p ps
trim_left-Dotted p [] h = trim_left-digits p h.some_digit h.digits
trim_left-Dotted p (q ∷ qs) h = trim_left-numeral p (b'.' ∷ Dotted q qs) h.some_digit h.digits

dot-ne-nil : (s : Bytes) → b'.' ∷ s ≢ []
dot-ne-nil s = λ e. cc

Dotted-ne-nil : (p : Bytes) (ps : List Bytes) → IsNumeral p → Dotted p ps ≢ []
Dotted-ne-nil p [] h = h.some_digit
Dotted-ne-nil p (q ∷ qs) h = append-ne-nil p (b'.' ∷ Dotted q qs) (dot-ne-nil (Dotted q qs))

trim_right-Dotted :
    (p : Bytes) (ps : List Bytes)
    → IsNumeral p
    → All IsNumeral ps
    → trim_right (Dotted p ps) b'.' ≡ Dotted p ps
trim_right-Dotted p [] h hs = trim_right-digits p h.digits
trim_right-Dotted p (q ∷ qs) h (k, ks) =
    let rest = Dotted q qs in
    let kept =
      trim_right-append (b'.' ∷ []) rest (Dotted-ne-nil q qs k) (trim_right-Dotted q qs k ks) in
    trim_right-append p (b'.' ∷ rest) (dot-ne-nil rest) kept

-- Numerals with dots between them have no dot to trim.
trim-Dotted :
    (p : Bytes) (ps : List Bytes)
    → IsNumeral p
    → All IsNumeral ps
    → trim (Dotted p ps) b'.' ≡ Dotted p ps
unfolding trim
trim-Dotted p ps h hs = rw (trim_left-Dotted p ps h) (trim_right-Dotted p ps h hs)

split-Dotted :
    (p : Bytes) (ps : List Bytes)
    → IsNumeral p
    → All IsNumeral ps
    → split (Dotted p ps) b'.' ≡ p ∷ ps
split-Dotted p [] h hs = split-digits_last p h.digits
split-Dotted p (q ∷ qs) h (k, ks) =
    split-digits p (Dotted q qs) h.digits ∙ ap (λ r. p ∷ r) (split-Dotted q qs k ks)

set_part-behind : (k : ℕ) (n : ℤ) (v : Version) → set_part (suc (suc (suc k))) n v ≡ v
unfolding set_part
set_part-behind k n v = ground arith

-- The parts behind the third one change nothing.
read_parts-behind :
    (k : ℕ) (ps : List Bytes) (v : Version)
    → All IsNumeral ps
    → read_parts (suc (suc (suc k))) ps v ≡ v
unfolding read_parts set_part
read_parts-behind k [] v h = refl
read_parts-behind k (p ∷ ps) v (h, hs) =
    rw (read_parts, atoi-value p h, set_part-behind k (pos (value p 0)) v)
      (read_parts-behind (suc k) ps v hs)

-- The version that numerals spell: the first three, where one that is not there counts as zero.
abbrev pub spelled : Bytes → List Bytes → Version
spelled a [] = record { major = pos (value a 0); minor = pos 0; patch = pos 0 }
spelled a (b ∷ []) = record { major = pos (value a 0); minor = pos (value b 0); patch = pos 0 }
spelled a (b ∷ (c ∷ _)) = record {
  major = pos (value a 0);
  minor = pos (value b 0);
  patch = pos (value c 0);
}

read_parts-spelled :
    (p : Bytes) (ps : List Bytes)
    → IsNumeral p
    → All IsNumeral ps
    → read_parts 0 (p ∷ ps) zero_version ≡ spelled p ps
unfolding read_parts set_part
read_parts-spelled a [] ha h = rw (read_parts, atoi-value a ha, read_parts) refl
read_parts-spelled a (b ∷ []) ha (hb, h) =
    rw (read_parts, atoi-value a ha, read_parts, atoi-value b hb, read_parts) refl
read_parts-spelled a (b ∷ (c ∷ ps)) ha (hb, (hc, h)) =
    rw (read_parts, atoi-value a ha, read_parts, atoi-value b hb, read_parts, atoi-value c hc)
      (read_parts-behind 0 ps
        (record { major = pos (value a 0); minor = pos (value b 0); patch = pos (value c 0) }) h)

pub version_of_run-Dotted :
    (p : Bytes) (ps : List Bytes)
    → IsNumeral p
    → All IsNumeral ps
    → version_of_run (Dotted p ps) ≡ spelled p ps
unfolding version_of_run
version_of_run-Dotted p ps h hs =
    rw (trim-Dotted p ps h hs, split-Dotted p ps h hs) (read_parts-spelled p ps h hs)
