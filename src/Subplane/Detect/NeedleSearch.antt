-- ===== src/Subplane/Detect/NeedleSearch.antt =====
-- `containsNeedle` of internal/subplane/detect.go. An index is the split of the string there.
use lumi_panel.Base.{Bool, true, false, not, ◌&&◌, ◌||◌, [], ◌∷◌, if◌then◌else◌}
use lumi_panel.Base.Bytes.{Bytes, strip_prefix, contains}
use lumi_panel.Subplane.Detect.Ascii.{is_word_byte, at_head}

pub record Needle : Type 0 where
  pub s : Bytes
  pub word : Bool

abbrev pub sub : Bytes → Needle
sub s = record { s = s; word = false }

abbrev pub word : Bytes → Needle
word s = record { s = s; word = true }

-- The test of one position for a delimited occurrence.
unfoldable pub delimited_at : Bytes → Bytes → Bytes → Bool
unfolding strip_prefix is_word_byte
delimited_at s before rest =
    let (found, after) = strip_prefix s rest in
    found && not (at_head is_word_byte before) && not (at_head is_word_byte after)

-- The loop of `containsNeedle`. `strings.Index` finds the next occurrence, and behind one that is
-- not delimited the loop goes on a byte later: together they try the positions one by one. (No
-- needle is empty; on an empty one that is nowhere free the source would slice past the end.)
unfoldable pub contains_word : Bytes → Bytes → Bytes → Bool
unfolding delimited_at
contains_word s before [] = delimited_at s before []
contains_word s before (c ∷ rest) =
    let later = contains_word s (c ∷ before) rest in delimited_at s before (c ∷ rest) || later

unfoldable pub contains_needle : Bytes → Needle → Bool
unfolding contains contains_word
contains_needle hay n = if not n.word then contains hay n.s else contains_word n.s [] hay
