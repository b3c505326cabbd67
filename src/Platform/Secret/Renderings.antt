-- ===== src/Platform/Secret/Renderings.antt =====
-- What a secret of internal/platform/secret/secret.go is shown as.
use lumi_panel.Base.{ℕ, ◌≡◌, refl, Bool, none, some}
use lumi_panel.Platform.Secret.{
  Heap, Secret, err_serialized, string_of, go_string, format, log_value, marshal_json,
}

-- Nothing that package fmt, package slog or package json gets of a secret depends on the
-- credential: any two secrets, in any heaps, are shown alike by each of them, under every verb and
-- flag; and package json gets no bytes at all but the error.
pub renderings_alike :
    (h k : Heap) (s t : Secret) (sharp : Bool) (verb : ℕ)
    → (string_of h s ≡ string_of k t)
      × (go_string h s ≡ go_string k t)
      × (format h s sharp verb ≡ format k t sharp verb)
      × (log_value h s ≡ log_value k t)
      × (marshal_json h s ≡ (none, some err_serialized))
      × (marshal_json k t ≡ (none, some err_serialized))
unfolding string_of go_string format log_value marshal_json
renderings_alike h k s t sharp verb = (refl, refl, refl, refl, refl, refl)
