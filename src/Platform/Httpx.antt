-- ===== src/Platform/Httpx.antt =====
-- internal/platform/httpx/json.go: how a response is written. The writer is an interface of package
-- net/http, and the encoder is that of encoding/json: both are parameters.
pub mod Answers
pub mod Refusals
mod Tests
use Prim.Native.String.{String}
use lumi_panel.Base.{ℤ, pos, Option, none, some, List, [], ◌∷◌, ◌++◌}
use lumi_panel.Base.Bytes.{Bytes, codes}

-- `http.ResponseWriter`, each call as a step on the writer's state.
pub record ResponseWriter (W : Type 0) : Type 0 where
  pub set_header : String → String → W → W
  pub write_header : ℤ → W → W
  pub write : Bytes → W → W

pub record HttpRequest : Type 0 where
  pub path : Bytes

pub data Level : Type 0 where
  level_error : Level

-- What `slog.LogAttrs` is given: the level, the message and the attributes.
pub record LogEntry : Type 0 where
  pub level : Level
  pub message : String
  pub path : Bytes
  pub error : Bytes

abbrev pub status_internal_server_error : ℤ
status_internal_server_error = pos 500

-- The error envelope around a code.
unfoldable pub envelope : Bytes → Bytes
envelope code = codes "{\"error\":{\"code\":\"" ++ (code ++ codes "\"}}")

module _ {W : Type 0} (writer : ResponseWriter W) where
  unfoldable pub set_safety_headers : W → W
  set_safety_headers w =
      let w1 = writer.set_header "Content-Type" "application/json; charset=utf-8" w in
      let w2 = writer.set_header "Cache-Control" "private, no-store" w1 in
      let w3 = writer.set_header "Referrer-Policy" "no-referrer" w2 in
      writer.set_header "X-Content-Type-Options" "nosniff" w3

  unfoldable pub write_error : W → ℤ → Bytes → W
  unfolding set_safety_headers envelope
  write_error w status code =
      writer.write (envelope code) (writer.write_header status (set_safety_headers w))

  unfoldable pub write_error_code : W → ℤ → Bytes → W
  unfolding write_error
  write_error_code w status code = write_error w status code

  -- `Encode` into a buffer: what the buffer then holds, and the error.
  module _ {A : Type 0} (encode : A → Bytes × Option Bytes) where
    unfoldable pub write_json : W → List LogEntry → HttpRequest → ℤ → A → W × List LogEntry
    unfolding set_safety_headers write_error
    write_json w log r status v =
        let (buf, err) = encode v in
        elim err [
          | some e ↦ (
            write_error w status_internal_server_error (codes "internal_error"),
            log
                ++ (record {
                  level = level_error;
                  message = "CRITICAL: response marshal failed";
                  path = r.path;
                  error = e;
                }
                    ∷ []),
          )
          | none ↦ (writer.write buf (writer.write_header status (set_safety_headers w)), log)
        ]
