-- ===== src/Platform/Httpx/Refusals.antt =====
-- A secret that internal/platform/httpx/json.go is asked to write.
use lumi_panel.Base.{◌≡◌, Option, some}
use lumi_panel.Base.Bytes.{Bytes}
use lumi_panel.Platform.Secret.{Heap, Secret, SecretError, marshal_json}
use lumi_panel.Platform.Httpx.Answers.{Answers}

-- What encoding/json documents of a value that may hold secrets, which it reads in a heap: where a
-- secret is the first part of the value that it cannot encode, it fails with the error of that
-- secret's `MarshalJSON`, wrapped with the name of the type.
pub record Aborts {A : Type 0} (encode : Heap → A → Bytes × Option Bytes)
    (Stops : A → Secret → Type 0) (wrapped : A → SecretError → Bytes) : Type 0 where
  pub aborts :
      (h : Heap) (v : A) (s : Secret) (e : SecretError)
      → Stops v s
      → (marshal_json h s).1 ≡ some e
      → (encode h v).1 ≡ some (wrapped v e)
