-- ===== src/Platform/Secret.antt =====
-- internal/platform/secret/secret.go: a credential behind a pointer. The boxes live in a heap, which
-- is passed along; a pointer is a place in it, and `none` is the nil pointer.
pub mod Boxes
pub mod Renderings
mod Tests
use lumi_panel.Base.{
  ℕ, zero, suc, ◌+◌, Bool, true, false, ◌||◌, Option, none, some, List, [], ◌∷◌, ◌++◌, ◌==◌, length,
  if◌then◌else◌, ◌⊎◌, inl, inr,
}
use lumi_panel.Base.Bytes.{Bytes, codes, eq_bytes, is_empty}

pub record Box : Type 0 where
  pub v : Bytes

abbrev pub Heap : Type 0
Heap = List Box

pub record Secret : Type 0 where
  pub b : Option ℕ

-- `err_serialized` is the package's own error; the others are those of package json.
pub data SecretError : Type 0 where
  err_serialized : SecretError
  err_json : Bytes → SecretError

abbrev pub redacted : Bytes
redacted = codes "[REDACTED]"

-- The box behind a pointer. A pointer always has one: out of range, the empty box stands in.
unfoldable pub box_at : Heap → ℕ → Box
box_at [] p = record { v = [] }
box_at (x ∷ h) zero = x
box_at (x ∷ h) (suc p) = box_at h p

-- `&box{v: v}`: a new box behind those there are.
unfoldable pub alloc : Heap → Bytes → Heap × Secret
alloc h v = (h ++ (record { v = v } ∷ []), record { b = some (length h) })

-- `New`.
unfoldable pub new_secret : Heap → Bytes → Heap × Secret
unfolding alloc
new_secret h v = alloc h v

unfoldable pub disclose : Heap → Secret → Bytes
unfolding box_at
disclose h s = elim s.b [ none ↦ [] | some p ↦ (box_at h p).v ]

unfoldable pub is_zero : Heap → Secret → Bool
unfolding box_at
is_zero h s = elim s.b [ none ↦ true | some p ↦ eq_bytes (box_at h p).v [] ]

unfoldable pub string_of : Heap → Secret → Bytes
string_of h s = redacted

unfoldable pub go_string : Heap → Secret → Bytes
go_string h s = codes "secret.Secret{" ++ (redacted ++ codes "}")

-- What `Format` writes to its state, whose flag `#` is `sharp`.
unfoldable pub format : Heap → Secret → Bool → ℕ → Bytes
unfolding go_string
format h s sharp verb =
    if verb == b'v' then (if sharp then go_string h s else redacted) else redacted

-- `LogValue`, a string value.
unfoldable pub log_value : Heap → Secret → Bytes
log_value h s = redacted

-- `MarshalJSON`: the bytes and the error.
unfoldable pub marshal_json : Heap → Secret → Option Bytes × Option SecretError
marshal_json h s = (none, some err_serialized)

-- `json.Unmarshal` into a string is a parameter: an error or the string.
module _ (unmarshal_string : Bytes → Bytes ⊎ Bytes) where
  -- `UnmarshalJSON`: the heap, what the receiver holds after it, and the error.
  unfoldable pub unmarshal_json : Heap → Secret → Bytes → (Heap × Secret) × Option SecretError
  unfolding alloc
  unmarshal_json h s json = elim (unmarshal_string json) [
    | inl e ↦ ((h, s), some (err_json e))
    | inr v ↦ (alloc h v, none)
  ]
