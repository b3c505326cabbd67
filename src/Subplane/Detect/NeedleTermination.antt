-- ===== src/Subplane/Detect/NeedleTermination.antt =====
-- The loop of `containsNeedle` of internal/subplane/detect.go ends, with what trying every position
-- gives.
use lumi_panel.Base.{
  ℕ, zero, suc, ◌+◌, ◌-◌, ◌<◌, ◌≡◌, ◌≢◌, ◌∙◌, refl, sym, ap, arith, Bool, true, false, not, ◌&&◌,
  ◌||◌, Bool-cases, inl, inr, Option, none, some, Option-cases, [], ◌∷◌, ◌++◌, ◌==◌, length,
  length-append, if◌then◌else◌,
}
use lumi_panel.Base.Bytes.{Bytes, onto, strip_prefix, strip_prefix-found}
use lumi_panel.Subplane.Detect.Ascii.{is_word_byte, at_head}
use lumi_panel.Subplane.Detect.NeedleSearch.{word, delimited_at, contains_word, contains_needle}
use lumi_panel.Subplane.Detect.NeedleLoop.{drop, head_or_zero, byte_at, index, search_word}
use lumi_panel.Subplane.Detect.NeedleRounds.{
  walk, walk-onto, drop-onto, drop-add, drop-append, length-onto, index-none, index-some,
}

abbrev before_ok : Bytes → ℕ → Bool
before_ok hay at = at == 0 || not (is_word_byte (byte_at (at - 1) hay))

abbrev after_ok : Bytes → ℕ → Bool
after_ok hay end = end == length hay || not (is_word_byte (byte_at end hay))

-- A round that found the needle at an index.
abbrev round_at : ℕ → Bytes → Bytes → ℕ → Option Bool
round_at fuel hay s at =
    if before_ok hay at && after_ok hay (at + length s)
    then some true
    else search_word fuel hay s (at + 1)

before_ok-at_head :
    (before rest : Bytes)
    → before_ok (onto rest before) (length before) ≡ not (at_head is_word_byte before)
unfolding byte_at onto
before_ok-at_head [] rest = refl
before_ok-at_head (c ∷ before) rest = ground (arith, ap head_or_zero (drop-onto before (c ∷ rest)))

drop-behind :
    (before p after : Bytes) → drop (length before + length p) (onto (p ++ after) before) ≡ after
drop-behind before p after =
    drop-add (length before) (length p) (onto (p ++ after) before)
    ∙ (ap (drop (length p)) (drop-onto before (p ++ after)) ∙ drop-append p after)

after_ok-at_head :
    (before p after : Bytes)
    → after_ok (onto (p ++ after) before) (length before + length p)
      ≡ not (at_head is_word_byte after)
unfolding byte_at is_word_byte
after_ok-at_head before p [] = rw (drop-behind before p []) (ground arith)
after_ok-at_head before p (c ∷ after) =
    let inside : (length before + length p == length (onto (p ++ (c ∷ after)) before)) ≡ false =
      ground (arith, length-onto before (p ++ (c ∷ after)), length-append p (c ∷ after)) in
    rw (inside, drop-behind before p (c ∷ after)) refl

delimited_at-found :
    (before p rest : Bytes)
    → (strip_prefix p rest).0 ≡ true
    → delimited_at p before rest
      ≡ (not (at_head is_word_byte before) && not (at_head is_word_byte (strip_prefix p rest).1))
unfolding delimited_at
delimited_at-found before p rest e = rw e refl

-- A round decides the position, and hands on to the next one if that is not free.
round_at-delimited_at :
    (fuel : ℕ) (before rest p : Bytes)
    → (strip_prefix p rest).0 ≡ true
    → round_at fuel (onto rest before) p (length before) ≡ (
        if delimited_at p before rest
        then some true
        else search_word fuel (onto rest before) p (length before + 1))
round_at-delimited_at fuel before rest p e =
    let after = (strip_prefix p rest).1 in
    let stands = strip_prefix-found p rest e in
    let ends =
      ap (λ r. after_ok (onto r before) (length before + length p)) stands
      ∙ after_ok-at_head before p after in
    rw (before_ok-at_head before rest, ends, delimited_at-found before p rest e) refl

search_word-step :
    (fuel from i : ℕ) (hay p : Bytes)
    → index (drop from hay) p ≡ some i
    → search_word (suc fuel) hay p from ≡ round_at fuel hay p (i + from)
unfolding search_word
search_word-step fuel from i hay p e = rw (e, search_word) refl

search_word-stop :
    (fuel from : ℕ) (hay p : Bytes)
    → index (drop from hay) p ≡ none
    → search_word (suc fuel) hay p from ≡ some false
unfolding search_word
search_word-stop fuel from hay p e = rw (e, search_word) refl

add_one : (n : ℕ) → n + 1 ≡ suc n
add_one n = omega arith

strip_prefix-nil : (p : Bytes) → p ≢ [] → (strip_prefix p []).0 ≢ true
unfolding strip_prefix
strip_prefix-nil [] n e = n refl
strip_prefix-nil (c ∷ p) n e = cc

-- The rounds from a position where the needle stands.
round_at-contains_word :
    (fuel : ℕ) (before rest p : Bytes)
    → p ≢ []
    → (strip_prefix p rest).0 ≡ true
    → ((c : ℕ) (r : Bytes)
        → rest ≡ c ∷ r
        → search_word fuel (onto r (c ∷ before)) p (length (c ∷ before))
          ≡ some (contains_word p (c ∷ before) r))
    → round_at fuel (onto rest before) p (length before) ≡ some (contains_word p before rest)
unfolding contains_word onto
round_at-contains_word fuel before [] p n e later = absurd (strip_prefix-nil p n e)
round_at-contains_word fuel before (c ∷ r) p n e later =
    let next = later c r refl in
    round_at-delimited_at fuel before (c ∷ r) p e
    ∙ elim (Bool-cases (delimited_at p before (c ∷ r))) [
      | inl d ↦ rw d refl
      | inr d ↦
          rw d
            (ap (λ k. search_word fuel (onto (c ∷ r) before) p k) (add_one (length before)) ∙ next)
    ]

-- Enough fuel for what is left of the text ends the search.
search_word-contains_word :
    (fuel : ℕ) (before rest p : Bytes)
    → p ≢ []
    → length rest < fuel
    → search_word fuel (onto rest before) p (length before) ≡ some (contains_word p before rest)
search_word-contains_word zero before rest p n h = absurd (omega arith)
search_word-contains_word (suc fuel) before rest p n h = elim (Option-cases (index rest p)) [
  | inl e ↦
      search_word-stop fuel (length before) (onto rest before) p
        (ap (λ r. index r p) (drop-onto before rest) ∙ e)
      ∙ ap some (sym (index-none rest p before e))
  | inr (i, e) ↦
      let found = index-some rest p before i e in
      let (left, right) = walk i before rest in
      let step =
        search_word-step fuel (length before) i (onto rest before) p
          (ap (λ r. index r p) (drop-onto before rest) ∙ e) in
      let later = λ (c : ℕ) (r : Bytes) (q : right ≡ c ∷ r).
        search_word-contains_word fuel (c ∷ left) r p n
          (omega (arith, found.shorter, h, ap length q)) in
      step
      ∙ ap (round_at fuel (onto rest before) p) (sym found.place)
      ∙ ap (λ hay. round_at fuel hay p (length left)) (sym (walk-onto i before rest))
      ∙ round_at-contains_word fuel left right p n found.occurs later
      ∙ ap some (sym found.same)
]

-- The loop of `containsNeedle` ends for every text and every word that is not empty, after at most
-- one round more than the text has bytes, and says what `contains_needle` says.
pub search_word-contains_needle :
    (hay s : Bytes)
    → s ≢ []
    → search_word (length hay + 1) hay s 0 ≡ some (contains_needle hay (word s))
unfolding contains_needle onto
search_word-contains_needle hay s n =
    search_word-contains_word (length hay + 1) [] hay s n (omega arith)
