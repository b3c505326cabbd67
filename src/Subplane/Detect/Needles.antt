-- ===== src/Subplane/Detect/Needles.antt =====
-- What `containsNeedle` of internal/subplane/detect.go finds.
use lumi_panel.Base.{
  ◌≡◌, ◌≢◌, inl, inr, ◌↔◌, ◌∙◌, refl, sym, ap, arith, Bool, true, false, Bool-cases, [], ◌∷◌, ◌++◌,
  if◌then◌else◌,
}
use lumi_panel.Base.Bytes.{
  Bytes, onto, is_empty, strip_prefix, strip_prefix-append, strip_prefix-found, contains,
}
use lumi_panel.Subplane.Detect.Ascii.{is_word_byte, at_head}
use lumi_panel.Subplane.Detect.NeedleSearch.{Needle, delimited_at, contains_word, contains_needle}

-- The last byte of a text is a letter or a digit.
unfoldable pub ends_in_word : Bytes → Bool
ends_in_word [] = false
ends_in_word (c ∷ []) = is_word_byte c
ends_in_word (_ ∷ (c ∷ s)) = ends_in_word (c ∷ s)

-- The needle stands somewhere in the text, and free of letters and digits on both sides if it asks
-- for that.
pub record Occurs (hay : Bytes) (n : Needle) : Type 0 where
  pub before : Bytes
  pub after : Bytes
  pub stands : hay ≡ before ++ (n.s ++ after)
  pub free_before : n.word ≡ true → ends_in_word before ≡ false
  pub free_after : n.word ≡ true → at_head is_word_byte after ≡ false

at_head-onto :
    (before s : Bytes)
    → at_head is_word_byte (onto before s)
      ≡ (if is_empty s then at_head is_word_byte before else ends_in_word s)
unfolding onto ends_in_word
at_head-onto before [] = refl
at_head-onto before (c ∷ []) = refl
at_head-onto before (c ∷ (d ∷ s)) = at_head-onto (c ∷ before) (d ∷ s)

at_head-ends_in_word : (s : Bytes) → at_head is_word_byte (onto [] s) ≡ ends_in_word s
unfolding ends_in_word
at_head-ends_in_word [] = at_head-onto [] []
at_head-ends_in_word (c ∷ s) = at_head-onto [] (c ∷ s)

contains-head : (p s : Bytes) → (strip_prefix p s).0 ≡ true → contains s p ≡ true
unfolding contains
contains-head p [] h = h
contains-head p (c ∷ s) h = rw h refl

contains-append : (before p after : Bytes) → contains (before ++ (p ++ after)) p ≡ true
unfolding contains
contains-append [] p after =
    contains-head p (p ++ after) (ap (λ r. r.0) (strip_prefix-append p after))
contains-append (c ∷ before) p after = rw (contains-append before p after) (ground arith)

record Finds (hay p : Bytes) : Type 0 where
  before : Bytes
  after : Bytes
  stands : hay ≡ before ++ (p ++ after)

contains-found : (hay p : Bytes) → contains hay p ≡ true → Finds hay p
unfolding contains
contains-found [] p h = record {
  before = [];
  after = (strip_prefix p []).1;
  stands = strip_prefix-found p [] h;
}
contains-found (c ∷ hay) p h = elim (Bool-cases (strip_prefix p (c ∷ hay)).0) [
  | inl e ↦ record {
    before = [];
    after = (strip_prefix p (c ∷ hay)).1;
    stands = strip_prefix-found p (c ∷ hay) e;
  }
  | inr e ↦
      let ih = contains-found hay p (rw e at h) in
      record { before = c ∷ ih.before; after = ih.after; stands = ap (λ r. c ∷ r) ih.stands }
]

delimited_at-append :
    (p before after : Bytes)
    → at_head is_word_byte before ≡ false
    → at_head is_word_byte after ≡ false
    → delimited_at p before (p ++ after) ≡ true
unfolding delimited_at
delimited_at-append p before after b a = rw (strip_prefix-append p after, b, a) refl

record FindsWord (hay p left : Bytes) : Type 0 where
  before : Bytes
  after : Bytes
  stands : hay ≡ before ++ (p ++ after)
  free_before : at_head is_word_byte (onto left before) ≡ false
  free_after : at_head is_word_byte after ≡ false

delimited_at-found : (p left hay : Bytes) → delimited_at p left hay ≡ true → FindsWord hay p left
unfolding delimited_at onto
delimited_at-found p left hay h = record {
  before = [];
  after = (strip_prefix p hay).1;
  stands = strip_prefix-found p hay (ground arith);
  free_before = ground arith;
  free_after = ground arith;
}

contains_word-head :
    (p left s : Bytes) → delimited_at p left s ≡ true → contains_word p left s ≡ true
unfolding contains_word
contains_word-head p left [] h = h
contains_word-head p left (c ∷ s) h = rw h refl

contains_word-append :
    (before p after left : Bytes)
    → at_head is_word_byte (onto left before) ≡ false
    → at_head is_word_byte after ≡ false
    → contains_word p left (before ++ (p ++ after)) ≡ true
unfolding contains_word onto
contains_word-append [] p after left b a =
    contains_word-head p left (p ++ after) (delimited_at-append p left after b a)
contains_word-append (c ∷ before) p after left b a =
    rw (contains_word-append before p after (c ∷ left) b a) (ground arith)

contains_word-found : (hay p left : Bytes) → contains_word p left hay ≡ true → FindsWord hay p left
unfolding contains_word onto
contains_word-found [] p left h = delimited_at-found p left [] h
contains_word-found (c ∷ hay) p left h = elim (Bool-cases (delimited_at p left (c ∷ hay))) [
  | inl e ↦ delimited_at-found p left (c ∷ hay) e
  | inr e ↦
      let ih = contains_word-found hay p (c ∷ left) (rw e at h) in
      record {
        before = c ∷ ih.before;
        after = ih.after;
        stands = ap (λ r. c ∷ r) ih.stands;
        free_before = ih.free_before;
        free_after = ih.free_after;
      }
]

pub Occurs-contains_needle :
    (hay : Bytes) (n : Needle) → Occurs hay n → contains_needle hay n ≡ true
unfolding contains_needle
Occurs-contains_needle hay n o = elim (Bool-cases n.word) [
  | inl e ↦
      let b = at_head-ends_in_word o.before ∙ o.free_before e in
      rw (e, o.stands) (contains_word-append o.before n.s o.after [] b (o.free_after e))
  | inr e ↦ rw (e, o.stands) (contains-append o.before n.s o.after)
]

pub contains_needle-Occurs :
    (hay : Bytes) (n : Needle) → contains_needle hay n ≡ true → Occurs hay n
unfolding contains_needle
contains_needle-Occurs hay n h = elim (Bool-cases n.word) [
  | inl e ↦
      let f = contains_word-found hay n.s [] (rw e at h) in
      record {
        before = f.before;
        after = f.after;
        stands = f.stands;
        free_before = λ _. sym (at_head-ends_in_word f.before) ∙ f.free_before;
        free_after = λ _. f.free_after;
      }
  | inr e ↦
      let f = contains-found hay n.s (rw e at h) in
      record {
        before = f.before;
        after = f.after;
        stands = f.stands;
        free_before = λ w. absurd (cc);
        free_after = λ w. absurd (cc);
      }
]

-- `containsNeedle` holds of a needle that is not empty exactly when it stands somewhere in the
-- text, and, for one that is a word, when it stands there with no letter or digit next to it on
-- either side: the position may be any one, also one that overlaps an occurrence that is not free.
pub contains_needle_iff :
    (hay : Bytes) (n : Needle) → n.s ≢ [] → (contains_needle hay n ≡ true) ↔ Occurs hay n
contains_needle_iff hay n _ = (contains_needle-Occurs hay n, Occurs-contains_needle hay n)
