-- ===== src/Subplane/Detect/VersionScan.antt =====
-- `parseVersion` of internal/subplane/detect.go. An index into a string is the split of the string
-- there: the bytes before it, the last one first, and the bytes from it on.
use lumi_panel.Base.{
  ℕ, zero, suc, ◌+◌, ◌-◌, ◌*◌, ◌^◌, Bool, false, not, ◌&&◌, ◌||◌, Option, none, some, List, [], ◌∷◌,
  ℤ, pos, ltb, ◌==◌, length, if◌then◌else◌,
}
use lumi_panel.Base.Bytes.{Bytes, split, trim}
use lumi_panel.Subplane.Client.{Version, zero_version}
use lumi_panel.Subplane.Detect.Ascii.{is_digit, is_alpha, is_word_byte, at_head}

-- `ua[i-1]` is a letter that makes the digit at `i` part of a name.
unfoldable pub in_name : Bytes → Bool
unfolding is_alpha is_word_byte
in_name [] = false
in_name (c ∷ before) =
    is_alpha c && not ((c == b'v' || c == b'V') && not (at_head is_word_byte before))

-- `ua[i:j]` and `ua[j:]`, at the end `j` of the digits and dots from `i` on.
unfoldable pub run_of : Bytes → Bytes × Bytes
unfolding is_digit
run_of [] = ([], [])
run_of (c ∷ s) =
    let (run, after) = run_of s in if is_digit c || c == b'.' then (c ∷ run, after) else ([], c ∷ s)

unfoldable pub read_digits : Bytes → ℕ → Option ℕ
unfolding is_digit
read_digits [] n = some n
read_digits (c ∷ s) n =
    let rest = read_digits s (n * 10 + (c - b'0')) in if is_digit c then rest else none

-- `strconv.Atoi` on the parts, which hold no sign: it fails on an empty text and out of range.
unfoldable pub atoi : Bytes → Option ℤ
unfolding read_digits
atoi [] = none
atoi (c ∷ s) = elim (read_digits (c ∷ s) 0) [
  | none ↦ none
  | some n ↦ if ltb n (2 ^ 63) then some (pos n) else none
]

-- The `switch` on the index of a part.
unfoldable pub set_part : ℕ → ℤ → Version → Version
set_part k n v =
    if k == 0
    then record v { major = n }
    else if k == 1
    then record v { minor = n }
    else if k == 2
    then record v { patch = n }
    else v

-- The loop over the parts: it breaks at one that is no number.
unfoldable pub read_parts : ℕ → List Bytes → Version → Version
unfolding atoi set_part
read_parts k [] v = v
read_parts k (p ∷ parts) v = elim (atoi p) [
  | none ↦ v
  | some n ↦ read_parts (suc k) parts (set_part k n v)
]

unfoldable pub version_of_run : Bytes → Version
unfolding split trim read_parts
version_of_run run = read_parts 0 (split (trim run b'.') b'.') zero_version

-- The loop of `parseVersion`. Behind a run that runs into a letter it goes on past that letter:
-- `skip` counts the bytes to pass over.
unfoldable pub parse_version_from : ℕ → Bytes → Bytes → Version
unfolding is_digit is_alpha in_name run_of version_of_run
parse_version_from skip before [] = zero_version
parse_version_from (suc skip) before (c ∷ s) = parse_version_from skip (c ∷ before) s
parse_version_from zero before (c ∷ s) =
    let next = parse_version_from zero (c ∷ before) s in
    let run = (run_of (c ∷ s)).0 in
    let past = parse_version_from (length run) (c ∷ before) s in
    if not (is_digit c)
    then next
    else if in_name before
    then next
    else if at_head is_alpha (run_of (c ∷ s)).1
    then past
    else version_of_run run

unfoldable pub parse_version : Bytes → Version
unfolding parse_version_from
parse_version ua = parse_version_from 0 [] ua
