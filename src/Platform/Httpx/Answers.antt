-- ===== src/Platform/Httpx/Answers.antt =====
-- What a client is answered by internal/platform/httpx/json.go.
use Prim.Native.String.{String}
use lumi_panel.Base.{
  ◌≡◌, ◌≢◌, refl, ◌∙◌, Bool, true, false, ℤ, pos, ◌≤ℤ◌, Option, none, some, List, [], ◌∷◌, ◌++◌,
}
use lumi_panel.Base.Bytes.{Bytes, codes}
use lumi_panel.Platform.Httpx.{
  ResponseWriter, HttpRequest, LogEntry, level_error, status_internal_server_error, envelope,
  set_safety_headers, write_error, write_error_code,
}

-- A status that ends a response, and lets it have a body.
pub record IsAnswer (status : ℤ) : Type 0 where
  pub final : pos 200 ≤ℤ status
  pub three_digits : status ≤ℤ pos 999
  pub not_no_content : status ≢ pos 204
  pub not_not_modified : status ≢ pos 304

-- What package net/http documents of a writer, for a request other than HEAD: headers may be set
-- until the status is written, which sends them, and the body follows in the order of the writes.
pub record Documented {W : Type 0} (writer : ResponseWriter W) : Type 0 where
  pub committed : W → Bool
  pub header : W → String → Option String
  pub status : W → ℤ
  pub sent : W → String → Option String
  pub body : W → Bytes
  pub set_same : (k v : String) (w : W) → header (writer.set_header k v w) k ≡ some v
  pub set_other : (k v n : String) (w : W) → n ≢ k → header (writer.set_header k v w) n ≡ header w n
  pub set_committed : (k v : String) (w : W) → committed (writer.set_header k v w) ≡ committed w
  pub set_body : (k v : String) (w : W) → body (writer.set_header k v w) ≡ body w
  pub commits :
      (s : ℤ) (w : W)
      → IsAnswer s
      → committed w ≡ false
      → let w2 = writer.write_header s w in
        (committed w2 ≡ true) × (status w2 ≡ s) × (sent w2 ≡ header w) × (body w2 ≡ body w)
  pub writes :
      (b : Bytes) (w : W)
      → committed w ≡ true
      → IsAnswer (status w)
      → let w2 = writer.write b w in
        (committed w2 ≡ true)
        × (status w2 ≡ status w)
        × (sent w2 ≡ sent w)
        × (body w2 ≡ body w ++ b)

module _ {W : Type 0} (writer : ResponseWriter W) (d : Documented writer) where
  -- A response that the client has in full.
  pub record Answers (w : W) (status : ℤ) (body : Bytes) : Type 0 where
    pub has_status : d.status w ≡ status
    pub has_body : d.body w ≡ body
    pub is_committed : d.committed w ≡ true
    pub has_content_type : d.sent w "Content-Type" ≡ some "application/json; charset=utf-8"
    pub has_cache_control : d.sent w "Cache-Control" ≡ some "private, no-store"
    pub has_referrer_policy : d.sent w "Referrer-Policy" ≡ some "no-referrer"
    pub has_nosniff : d.sent w "X-Content-Type-Options" ≡ some "nosniff"

  -- Nothing is sent yet.
  pub record IsFresh (w : W) : Type 0 where
    pub uncommitted : d.committed w ≡ false
    pub empty : d.body w ≡ []

  record HasSafetyHeaders (h : String → Option String) : Type 0 where
    content_type : h "Content-Type" ≡ some "application/json; charset=utf-8"
    cache_control : h "Cache-Control" ≡ some "private, no-store"
    referrer_policy : h "Referrer-Policy" ≡ some "no-referrer"
    nosniff : h "X-Content-Type-Options" ≡ some "nosniff"

  set_safety_headers-HasSafetyHeaders :
      (w : W) → HasSafetyHeaders (d.header (set_safety_headers writer w))
  unfolding set_safety_headers
  set_safety_headers-HasSafetyHeaders w =
      let w1 = writer.set_header "Content-Type" "application/json; charset=utf-8" w in
      let w2 = writer.set_header "Cache-Control" "private, no-store" w1 in
      let w3 = writer.set_header "Referrer-Policy" "no-referrer" w2 in
      record {
        content_type =
            d.set_other _ _ _ w3 (λ e. cc)
            ∙ (d.set_other _ _ _ w2 (λ e. cc)
                ∙ (d.set_other _ _ _ w1 (λ e. cc) ∙ d.set_same _ _ w));
        cache_control =
            d.set_other _ _ _ w3 (λ e. cc) ∙ (d.set_other _ _ _ w2 (λ e. cc) ∙ d.set_same _ _ w1);
        referrer_policy = d.set_other _ _ _ w3 (λ e. cc) ∙ d.set_same _ _ w2;
        nosniff = d.set_same _ _ w3;
      }

  set_safety_headers-IsFresh : (w : W) → IsFresh w → IsFresh (set_safety_headers writer w)
  unfolding set_safety_headers
  set_safety_headers-IsFresh w f = record {
    uncommitted =
        rw (d.set_committed, d.set_committed, d.set_committed, d.set_committed) f.uncommitted;
    empty = rw (d.set_body, d.set_body, d.set_body, d.set_body) f.empty;
  }

  -- The headers, the status and one body, in that order, answer a client in full.
  headed-Answers :
      (w : W) (s : ℤ) (b : Bytes)
      → IsAnswer s
      → IsFresh w
      → Answers (writer.write b (writer.write_header s (set_safety_headers writer w))) s b
  headed-Answers w s b a f =
      let w1 = set_safety_headers writer w in
      let fresh = set_safety_headers-IsFresh w f in
      let headers = set_safety_headers-HasSafetyHeaders w in
      let (c2, s2, h2, b2) = d.commits s w1 a fresh.uncommitted in
      let (c3, s3, h3, b3) = d.writes b (writer.write_header s w1) c2 (rw s2 a) in
      record {
        has_status = s3 ∙ s2;
        has_body = rw (b3, b2, fresh.empty) refl;
        is_committed = c3;
        has_content_type = rw (h3, h2) headers.content_type;
        has_cache_control = rw (h3, h2) headers.cache_control;
        has_referrer_policy = rw (h3, h2) headers.referrer_policy;
        has_nosniff = rw (h3, h2) headers.nosniff;
      }

  -- A client that nothing was sent to and that is refused by a status with a body gets that status,
  -- the four safety headers and the envelope around the code.
  pub write_error_code_lem :
      (w : W) (s : ℤ) (code : Bytes)
      → IsAnswer s
      → IsFresh w
      → Answers (write_error_code writer w s code) s (envelope code)
  unfolding write_error_code write_error
  write_error_code_lem w s code a f = headed-Answers w s (envelope code) a f

  module _ {A : Type 0} (encode : A → Bytes × Option Bytes) where
    -- The answer and the log by what the encoder gave.
    abbrev pub AnswersEncoded :
        HttpRequest → ℤ → List LogEntry → Bytes × Option Bytes → W × List LogEntry → Type 0
    AnswersEncoded r s log (buf, none) (w, after) = Answers w s buf × (after ≡ log)
    AnswersEncoded r s log (buf, some e) (w, after) =
        Answers w status_internal_server_error (envelope (codes "internal_error"))
        × (after
            ≡ log
              ++ (record {
                level = level_error;
                message = "CRITICAL: response marshal failed";
                path = r.path;
                error = e;
              }
                  ∷ []))
