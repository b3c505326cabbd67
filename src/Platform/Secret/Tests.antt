-- ===== src/Platform/Secret/Tests.antt =====
-- Runs of internal/platform/secret/secret.go, and its theorems at concrete secrets. A text is read as
-- the string it is, and the empty text is refused.
use lumi_panel.Base.{◌≡◌, refl, ◌⊎◌, inl, inr, true, false, none, [], ◌∷◌}
use lumi_panel.Base.Bytes.{Bytes, codes, eq_bytes}
use lumi_panel.Platform.Secret.{Heap, Secret, new_secret, disclose, is_zero, format, unmarshal_json}
use lumi_panel.Platform.Secret.Boxes.{no_call, call_new, call_unmarshal, disclose-new_secret}

abbrev read : Bytes → Bytes ⊎ Bytes
read [] = inl (codes "unexpected end of JSON input")
read (c ∷ s) = inr (c ∷ s)

abbrev token : Heap × Secret
token = new_secret [] (codes "token")

shown :
    (format token.0 token.1 false b'd' ≡ codes "[REDACTED]")
    × (format token.0 token.1 true b'v' ≡ codes "secret.Secret{[REDACTED]}")
    × (is_zero token.0 token.1 ≡ false)
    × (is_zero [] (record { b = none }) ≡ true)
unfolding new_secret format is_zero eq_bytes
shown = (refl, refl, refl, refl)

-- A copy of the token is read over, and another credential is wrapped.
disclose-new_secret_example :
    disclose
      (new_secret (unmarshal_json read token.0 token.1 (codes "other")).0.0 (codes "third")).0
      token.1
    ≡ codes "token"
disclose-new_secret_example =
    disclose-new_secret read []
      (new_secret (unmarshal_json read token.0 token.1 (codes "other")).0.0 (codes "third")).0
      (codes "token") (call_unmarshal token.1 (codes "other") (call_new (codes "third") no_call))
