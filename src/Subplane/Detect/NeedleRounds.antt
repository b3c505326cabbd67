-- ===== src/Subplane/Detect/NeedleRounds.antt =====
-- Where the loop of `containsNeedle` of internal/subplane/detect.go goes on in the text.
use mathlib.Core.Option
use lumi_panel.Base.{
  ℕ, zero, suc, ◌+◌, ◌≡◌, ◌≢◌, ◌∙◌, refl, sym, ap, arith, true, false, Bool-cases, inl, inr, Option,
  none, some, [], ◌∷◌, ◌++◌, length,
}
use lumi_panel.Base.Bytes.{Bytes, onto, strip_prefix}
use lumi_panel.Subplane.Detect.NeedleSearch.{delimited_at, contains_word}
use lumi_panel.Subplane.Detect.NeedleLoop.{drop, index}

-- A step over the bytes that are passed.
unfoldable pub walk : ℕ → Bytes → Bytes → Bytes × Bytes
walk zero before rest = (before, rest)
walk (suc n) before [] = (before, [])
walk (suc n) before (c ∷ rest) = walk n (c ∷ before) rest

pub walk-onto :
    (n : ℕ) (before rest : Bytes)
    → onto (walk n before rest).1 (walk n before rest).0 ≡ onto rest before
unfolding walk onto
walk-onto zero before rest = refl
walk-onto (suc n) before [] = refl
walk-onto (suc n) before (c ∷ rest) = walk-onto n (c ∷ before) rest

drop-suc : (n : ℕ) (s : Bytes) → drop (suc n) s ≡ drop 1 (drop n s)
unfolding drop
drop-suc zero s = refl
drop-suc (suc n) [] = refl
drop-suc (suc n) (c ∷ s) = drop-suc n s

pub drop-onto : (before rest : Bytes) → drop (length before) (onto rest before) ≡ rest
unfolding onto drop
drop-onto [] rest = refl
drop-onto (c ∷ before) rest =
    drop-suc (length before) (onto (c ∷ rest) before) ∙ ap (drop 1) (drop-onto before (c ∷ rest))

zero_add : (n : ℕ) → 0 + n ≡ n
zero_add n = omega arith

suc_add : (m n : ℕ) → suc m + n ≡ suc (m + n)
suc_add m n = omega arith

drop-nil : (n : ℕ) → drop n [] ≡ []
unfolding drop
drop-nil zero = refl
drop-nil (suc n) = refl

pub drop-add : (m n : ℕ) (s : Bytes) → drop (m + n) s ≡ drop n (drop m s)
unfolding drop
drop-add zero n s = ap (λ k. drop k s) (zero_add n)
drop-add (suc m) n [] = drop-nil (suc m + n) ∙ sym (drop-nil n)
drop-add (suc m) n (c ∷ s) = ap (λ k. drop k (c ∷ s)) (suc_add m n) ∙ drop-add m n s

pub drop-append : (s t : Bytes) → drop (length s) (s ++ t) ≡ t
unfolding drop
drop-append [] t = refl
drop-append (c ∷ s) t = drop-append s t

pub length-onto : (before rest : Bytes) → length (onto rest before) ≡ length before + length rest
unfolding onto
length-onto [] rest = omega arith
length-onto (c ∷ before) rest = omega (arith, length-onto before (c ∷ rest))

not-delimited_at :
    (p before rest : Bytes) → (strip_prefix p rest).0 ≡ false → delimited_at p before rest ≡ false
unfolding delimited_at
not-delimited_at p before rest e = rw e refl

-- Where `index` finds nothing at the front, it looks behind it.
index-behind :
    (c : ℕ) (rest p : Bytes)
    → (strip_prefix p (c ∷ rest)).0 ≡ false
    → index (c ∷ rest) p ≡ Option.map suc (index rest p)
unfolding index
index-behind c rest p e = rw e refl

contains_word-behind :
    (c : ℕ) (rest p before : Bytes)
    → (strip_prefix p (c ∷ rest)).0 ≡ false
    → contains_word p before (c ∷ rest) ≡ contains_word p (c ∷ before) rest
unfolding contains_word
contains_word-behind c rest p before e = rw (not-delimited_at p before (c ∷ rest) e) refl

map-none : (o : Option ℕ) → Option.map suc o ≡ none → o ≡ none
map-none none h = refl
map-none (some i) h = cc

map-some : (o : Option ℕ) (i : ℕ) → Option.map suc o ≡ some (suc i) → o ≡ some i
map-some none i h = cc
map-some (some j) i h = cc

map-ne-zero : (o : Option ℕ) → Option.map suc o ≢ some zero
map-ne-zero none h = cc
map-ne-zero (some j) h = cc

-- Without an occurrence no position is found.
pub index-none : (rest p before : Bytes) → index rest p ≡ none → contains_word p before rest ≡ false
unfolding index contains_word
index-none [] p before h = not-delimited_at p before [] (ground arith)
index-none (c ∷ rest) p before h = elim (Bool-cases (strip_prefix p (c ∷ rest)).0) [
  | inl e ↦ absurd (ground (arith, e))
  | inr e ↦
      contains_word-behind c rest p before e
      ∙ index-none rest p (c ∷ before) (map-none (index rest p) (sym (index-behind c rest p e) ∙ h))
]

-- The positions before the first occurrence are not found.
pub record Found (p before rest : Bytes) (i : ℕ) : Type 0 where
  pub occurs : (strip_prefix p (walk i before rest).1).0 ≡ true
  pub same :
      contains_word p before rest ≡ contains_word p (walk i before rest).0 (walk i before rest).1
  pub place : length (walk i before rest).0 ≡ i + length before
  pub shorter : length (walk i before rest).1 + i ≡ length rest

pub index-some : (rest p before : Bytes) (i : ℕ) → index rest p ≡ some i → Found p before rest i
unfolding index walk
index-some [] p before zero h = record {
  occurs = ground arith;
  same = refl;
  place = omega arith;
  shorter = omega arith;
}
index-some [] p before (suc i) h = absurd (ground arith)
index-some (c ∷ rest) p before zero h = elim (Bool-cases (strip_prefix p (c ∷ rest)).0) [
  | inl e ↦ record { occurs = e; same = refl; place = omega arith; shorter = omega arith }
  | inr e ↦ absurd (map-ne-zero (index rest p) (sym (index-behind c rest p e) ∙ h))
]
index-some (c ∷ rest) p before (suc i) h = elim (Bool-cases (strip_prefix p (c ∷ rest)).0) [
  | inl e ↦ absurd (ground (arith, e))
  | inr e ↦
      let found =
        index-some rest p (c ∷ before) i
          (map-some (index rest p) i (sym (index-behind c rest p e) ∙ h)) in
      record {
        occurs = found.occurs;
        same = contains_word-behind c rest p before e ∙ found.same;
        place = omega (arith, found.place);
        shorter = omega (arith, found.shorter);
      }
]
