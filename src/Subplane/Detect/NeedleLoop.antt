-- ===== src/Subplane/Detect/NeedleLoop.antt =====
-- The loop of `containsNeedle` of internal/subplane/detect.go, index by index as it is written.
use mathlib.Core.Option
use lumi_panel.Base.{
  ℕ, zero, suc, ◌+◌, ◌-◌, Bool, true, false, not, ◌&&◌, ◌||◌, Option, none, some, [], ◌∷◌, ◌==◌,
  length, if◌then◌else◌,
}
use lumi_panel.Base.Bytes.{Bytes, strip_prefix}
use lumi_panel.Subplane.Detect.Ascii.{is_word_byte}

-- `s[n:]`.
unfoldable pub drop : ℕ → Bytes → Bytes
drop zero s = s
drop (suc n) [] = []
drop (suc n) (c ∷ s) = drop n s

abbrev pub head_or_zero : Bytes → ℕ
head_or_zero [] = 0
head_or_zero (c ∷ _) = c

-- `s[i]`; the loop reads it inside the string.
unfoldable pub byte_at : ℕ → Bytes → ℕ
unfolding drop
byte_at i s = head_or_zero (drop i s)

-- `strings.Index(s, p)`: the first position, if any.
unfoldable pub index : Bytes → Bytes → Option ℕ
unfolding strip_prefix
index [] p = if (strip_prefix p []).0 then some 0 else none
index (c ∷ s) p =
    let rest = index s p in if (strip_prefix p (c ∷ s)).0 then some 0 else Option.map suc rest

-- The rounds of the loop, from an index on: none where the fuel does not suffice.
unfoldable pub search_word : ℕ → Bytes → Bytes → ℕ → Option Bool
unfolding drop byte_at index
search_word zero hay s from = none
search_word (suc fuel) hay s from = elim (index (drop from hay) s) [
  | none ↦ some false
  | some i ↦
      let at = i + from in
      let before_ok = at == 0 || not (is_word_byte (byte_at (at - 1) hay)) in
      let end = at + length s in
      let after_ok = end == length hay || not (is_word_byte (byte_at end hay)) in
      if before_ok && after_ok then some true else search_word fuel hay s (at + 1)
]
