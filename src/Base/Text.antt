-- ===== src/Base/Text.antt =====
-- Go's comparisons of strings: equality, and the order by bytes, which the order by characters of
-- valid UTF-8 agrees with.
use Prim.Native.String.{String, compare}
use text.Mathlib.Text.{is_eq, is_lt}
use text.Mathlib.TextEquality
use lumi_panel.Base.{Bool, true, ◌≡◌, ◌↔◌}

unfoldable pub eq_text : String → String → Bool
eq_text s t = is_eq (compare s t)

unfoldable pub less_text : String → String → Bool
less_text s t = is_lt (compare s t)

pub eq_text_iff : (s t : String) → (eq_text s t ≡ true) ↔ (s ≡ t)
unfolding eq_text
eq_text_iff s t = TextEquality.eq_iff s t
