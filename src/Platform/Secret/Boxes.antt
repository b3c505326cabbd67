-- ===== src/Platform/Secret/Boxes.antt =====
-- The credentials of internal/platform/secret/secret.go through the calls that make boxes.
use mathlib.Core.List.{append-nil, append_assoc}
use lumi_panel.Base.{
  ℕ, zero, suc, ◌<◌, true, none, some, Option-cases, [], ◌∷◌, ◌++◌, length, length-append, ◌⊎◌, inl,
  inr, ◌≡◌, ◌↔◌, refl, sym, ap, ◌∙◌, arith,
}
use lumi_panel.Base.Bytes.{Bytes, eq_bytes_iff}
use lumi_panel.Platform.Secret.{
  Box, Heap, Secret, alloc, err_json, box_at, new_secret, disclose, is_zero, unmarshal_json,
}

-- The pointer of a secret is nil or has its box.
abbrev pub IsHeld : Heap → Secret → Type 0
IsHeld h s = (p : ℕ) → s.b ≡ some p → p < length h

box_at-append : (h k : Heap) (p : ℕ) → p < length h → box_at (h ++ k) p ≡ box_at h p
unfolding box_at
box_at-append [] k p lt = absurd (omega arith)
box_at-append (x ∷ h) k zero lt = refl
box_at-append (x ∷ h) k (suc p) lt = box_at-append h k p (omega arith)

box_at-last : (h : Heap) (x : Box) → box_at (h ++ (x ∷ [])) (length h) ≡ x
unfolding box_at
box_at-last [] x = refl
box_at-last (y ∷ h) x = box_at-last h x

-- New boxes leave what a secret discloses.
disclose-append : (h k : Heap) (s : Secret) → IsHeld h s → disclose (h ++ k) s ≡ disclose h s
unfolding disclose
disclose-append h k s held = elim (Option-cases s.b) [
  | inl e ↦ rw e refl
  | inr (p, e) ↦ rw e (ap (λ x. x.v) (box_at-append h k p (held p e)))
]

IsHeld-append : (h k : Heap) (s : Secret) → IsHeld h s → IsHeld (h ++ k) s
IsHeld-append h k s held p e = omega (arith, held p e, length-append h k)

alloc-disclose : (h : Heap) (v : Bytes) → disclose (alloc h v).0 (alloc h v).1 ≡ v
unfolding disclose alloc
alloc-disclose h v = ap (λ x. x.v) (box_at-last h (record { v = v }))

alloc-kept :
    (h : Heap) (v : Bytes) (s : Secret) → IsHeld h s → disclose (alloc h v).0 s ≡ disclose h s
unfolding alloc
alloc-kept h v s held = disclose-append h (record { v = v } ∷ []) s held

alloc-IsHeld : (h : Heap) (v : Bytes) → IsHeld (alloc h v).0 (alloc h v).1
unfolding alloc
alloc-IsHeld h v p e =
    let at : length h ≡ p = cc in omega (arith, at, length-append h (record { v = v } ∷ []))

-- `IsZero` holds exactly of the secrets that disclose the empty text.
pub is_zero-disclose : (h : Heap) (s : Secret) → (is_zero h s ≡ true) ↔ (disclose h s ≡ [])
unfolding is_zero disclose
is_zero-disclose h s = elim (Option-cases s.b) [
  | inl e ↦ rw e (λ _. refl, λ _. refl)
  | inr (p, e) ↦ rw e (eq_bytes_iff (box_at h p).v [])
]

sum_cases : (r : Bytes ⊎ Bytes) → ((e : Bytes) × (r ≡ inl e)) ⊎ ((v : Bytes) × (r ≡ inr v))
sum_cases (inl e) = inl (e, refl)
sum_cases (inr v) = inr (v, refl)

module _ (unmarshal_string : Bytes → Bytes ⊎ Bytes) where
  -- The calls that make boxes, one after another: `New`, and `UnmarshalJSON` on any receiver.
  pub data Calls : Heap → Heap → Type 0 where
    no_call : {h : Heap} → Calls h h
    call_new : {h k : Heap} (v : Bytes) → Calls (new_secret h v).0 k → Calls h k
    call_unmarshal :
        {h k : Heap} (s : Secret) (json : Bytes)
        → Calls (unmarshal_json unmarshal_string h s json).0.0 k
        → Calls h k

  unmarshal_json-refused :
      (h : Heap) (s : Secret) (json e : Bytes)
      → unmarshal_string json ≡ inl e
      → unmarshal_json unmarshal_string h s json ≡ ((h, s), some (err_json e))
  unfolding unmarshal_json
  unmarshal_json-refused h s json e q = rw (q, unmarshal_json) refl

  unmarshal_json-taken :
      (h : Heap) (s : Secret) (json v : Bytes)
      → unmarshal_string json ≡ inr v
      → unmarshal_json unmarshal_string h s json ≡ (alloc h v, none)
  unfolding unmarshal_json
  unmarshal_json-taken h s json v q = rw (q, unmarshal_json) refl

  unmarshal_json-append :
      (h : Heap) (s : Secret) (json : Bytes)
      → (l : Heap) × ((unmarshal_json unmarshal_string h s json).0.0 ≡ h ++ l)
  unfolding alloc
  unmarshal_json-append h s json = elim (sum_cases (unmarshal_string json)) [
    | inl (e, q) ↦ ([], rw (unmarshal_json-refused h s json e q) (sym (append-nil h)))
    | inr (v, q) ↦ (record { v = v } ∷ [], rw (unmarshal_json-taken h s json v q) refl)
  ]

  -- Each call adds boxes at most.
  Calls-append : (h k : Heap) → Calls h k → (l : Heap) × (k ≡ h ++ l)
  unfolding new_secret alloc unmarshal_json
  Calls-append h k no_call = ([], sym (append-nil h))
  Calls-append h k (call_new v c) =
      let (l, e) = Calls-append (new_secret h v).0 k c in
      ((record { v = v } ∷ []) ++ l, e ∙ append_assoc h (record { v = v } ∷ []) l)
  Calls-append h k (call_unmarshal s json c) =
      let (l, e) = Calls-append (unmarshal_json unmarshal_string h s json).0.0 k c in
      let (m, q) = unmarshal_json-append h s json in
      (m ++ l, e ∙ (ap (λ x. x ++ l) q ∙ append_assoc h m l))

  Calls-disclose :
      (h k : Heap) → Calls h k → (s : Secret) → IsHeld h s → disclose k s ≡ disclose h s
  Calls-disclose h k c s held = let (l, e) = Calls-append h k c in rw e (disclose-append h l s held)

  -- A credential that was wrapped is disclosed as it was, whatever boxes later calls of `New` and
  -- `UnmarshalJSON` make, also into a copy of the secret.
  pub disclose-new_secret :
      (h k : Heap) (v : Bytes) → Calls (new_secret h v).0 k → disclose k (new_secret h v).1 ≡ v
  unfolding new_secret
  disclose-new_secret h k v c =
      Calls-disclose (alloc h v).0 k c (alloc h v).1 (alloc-IsHeld h v) ∙ alloc-disclose h v

  -- What holds after `UnmarshalJSON` by what package json says of the text.
  abbrev pub Unmarshals : Heap → Secret → Bytes → Bytes ⊎ Bytes → Type 0
  Unmarshals h s json (inl e) =
      unmarshal_json unmarshal_string h s json ≡ ((h, s), some (err_json e))
  Unmarshals h s json (inr v) =
      let ((k, t), err) = unmarshal_json unmarshal_string h s json in
      (err ≡ none)
      × (disclose k t ≡ v)
      × IsHeld k t
      × ((o : Secret) → IsHeld h o → disclose k o ≡ disclose h o)

  -- What package json says of the text decides `UnmarshalJSON`. On its error the receiver and the
  -- heap stay as they are and the error is passed on; else there is no error, the receiver discloses
  -- the string, and every other secret there is, a copy of the receiver among them, discloses what
  -- it did.
  pub unmarshal_json_lem :
      (h : Heap) (s : Secret) (json : Bytes) → Unmarshals h s json (unmarshal_string json)
  unmarshal_json_lem h s json = elim (sum_cases (unmarshal_string json)) [
    | inl (e, q) ↦ rw q (unmarshal_json-refused h s json e q)
    | inr (v, q) ↦
        rw (q, unmarshal_json-taken h s json v q)
          (refl, alloc-disclose h v, alloc-IsHeld h v, alloc-kept h v)
  ]
