-- ===== src/Base/Bytes.antt =====
-- Go strings as lists of bytes, and what the program uses of package strings on them.
use Prim.Native.Char.{code}
use Prim.Native.String.{String}
use lumi_panel.Base.{
  ℕ, Bool, true, false, ◌&&◌, ◌||◌, List, [], ◌∷◌, ◌++◌, ◌==◌, if◌then◌else◌, ◌≡◌, ◌↔◌, refl, arith,
  ==_iff, Bool-cases, inl, inr, ap,
}

abbrev pub Bytes : Type 0
Bytes = List ℕ

-- The code points of a literal, which are its bytes when it is ASCII.
abbrev pub codes : String → Bytes
codes String.[] = []
codes (String.◌∷◌ c s) = code c ∷ codes s

-- `s == t`.
unfoldable pub eq_bytes : Bytes → Bytes → Bool
eq_bytes [] [] = true
eq_bytes [] (d ∷ t) = false
eq_bytes (c ∷ s) [] = false
eq_bytes (c ∷ s) (d ∷ t) = c == d && eq_bytes s t

pub eq_bytes_iff : (s t : Bytes) → (eq_bytes s t ≡ true) ↔ (s ≡ t)
unfolding eq_bytes
eq_bytes_iff [] [] = ground arith
eq_bytes_iff [] (d ∷ t) = ground arith
eq_bytes_iff (c ∷ s) [] = ground arith
eq_bytes_iff (c ∷ s) (d ∷ t) = ground (arith, eq_bytes_iff s t, ==_iff c d)

-- What is left of a text behind a prefix, if it has that prefix.
unfoldable pub strip_prefix : Bytes → Bytes → Bool × Bytes
strip_prefix [] s = (true, s)
strip_prefix (d ∷ p) [] = (false, [])
strip_prefix (d ∷ p) (c ∷ s) = let rest = strip_prefix p s in if c == d then rest else (false, [])

-- `strings.Contains(s, p)`: it tries each position.
unfoldable pub contains : Bytes → Bytes → Bool
unfolding strip_prefix
contains [] p = (strip_prefix p []).0
contains (c ∷ s) p = let rest = contains s p in (strip_prefix p (c ∷ s)).0 || rest

-- A byte at the front of the first part, or a cut in front of it.
abbrev pub cut : Bool → ℕ → List Bytes → List Bytes
cut true c parts = [] ∷ parts
cut false c [] = (c ∷ []) ∷ []
cut false c (p ∷ parts) = (c ∷ p) ∷ parts

-- `strings.Split(s, sep)` at a separator of one byte.
unfoldable pub split : Bytes → ℕ → List Bytes
split [] sep = [] ∷ []
split (c ∷ s) sep = cut (c == sep) c (split s sep)

-- `strings.Trim(s, cutset)` at a set of one byte: first its left end, then its right one.
unfoldable pub trim_left : Bytes → ℕ → Bytes
trim_left [] b = []
trim_left (c ∷ s) b = let rest = trim_left s b in if c == b then rest else c ∷ s

abbrev pub is_empty : Bytes → Bool
is_empty [] = true
is_empty (_ ∷ _) = false

unfoldable pub trim_right : Bytes → ℕ → Bytes
trim_right [] b = []
trim_right (c ∷ s) b = let rest = trim_right s b in if c == b && is_empty rest then [] else c ∷ rest

unfoldable pub trim : Bytes → ℕ → Bytes
unfolding trim_left trim_right
trim s b = trim_right (trim_left s b) b

-- The bytes of `s`, the last first, in front of `before`.
unfoldable pub onto : Bytes → Bytes → Bytes
onto before [] = before
onto before (c ∷ s) = onto (c ∷ before) s

pub onto-append : (before s t : Bytes) → onto before (s ++ t) ≡ onto (onto before s) t
unfolding onto
onto-append before [] t = refl
onto-append before (c ∷ s) t = onto-append (c ∷ before) s t

pub strip_prefix-append : (p s : Bytes) → strip_prefix p (p ++ s) ≡ (true, s)
unfolding strip_prefix
strip_prefix-append [] s = refl
strip_prefix-append (d ∷ p) s = rw (strip_prefix-append p s) (ground arith)

pub strip_prefix-found : (p s : Bytes) → (strip_prefix p s).0 ≡ true → s ≡ p ++ (strip_prefix p s).1
unfolding strip_prefix
strip_prefix-found [] s h = refl
strip_prefix-found (d ∷ p) [] h = absurd (cc)
strip_prefix-found (d ∷ p) (c ∷ s) h = elim (Bool-cases (c == d)) [
  | inl e ↦
      let ih = strip_prefix-found p s (rw e at h) in rw (e, (==_iff c d).0 e) (ap (λ r. d ∷ r) ih)
  | inr e ↦ absurd (ground arith)
]
