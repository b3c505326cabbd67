-- ===== src/Subplane/Detect/Ascii.antt =====
-- The byte tests of internal/subplane/detect.go.
use lumi_panel.Base.{ℕ, Bool, false, ◌&&◌, ◌||◌, [], ◌∷◌, leb}
use lumi_panel.Base.Bytes.{Bytes}

unfoldable pub is_digit : ℕ → Bool
is_digit c = leb b'0' c && leb c b'9'

unfoldable pub is_alpha : ℕ → Bool
is_alpha c = (leb b'a' c && leb c b'z') || (leb b'A' c && leb c b'Z')

unfoldable pub is_word_byte : ℕ → Bool
unfolding is_alpha is_digit
is_word_byte c = is_alpha c || is_digit c

-- A byte test at the head of a text: false at its end.
abbrev pub at_head : (ℕ → Bool) → Bytes → Bool
at_head test [] = false
at_head test (c ∷ _) = test c
