-- ===== src/Platform/Httpx/Tests.antt =====
-- Runs of internal/platform/httpx/json.go on a recording writer, and its theorems there. The values
-- to encode are texts and secrets: a secret behind a text has the text in the buffer when it fails.
use Prim.Native.String.{String}
use lumi_panel.Base.{
  ◌≡◌, ◌≢◌, refl, sym, inl, inr, Bool, true, false, Bool-cases, if◌then◌else◌, ℤ, pos, Option, none,
  some, [], ◌++◌,
}
use lumi_panel.Base.Text.{eq_text, eq_text_iff}
use lumi_panel.Base.Bytes.{Bytes, codes}
use lumi_panel.Platform.Secret.{Heap, Secret, SecretError, err_serialized, err_json, marshal_json}
use lumi_panel.Platform.Httpx.{ResponseWriter, HttpRequest, envelope, write_json}
use lumi_panel.Platform.Httpx.Answers.{Documented, IsFresh, Answers}

record Recorder : Type 0 where
  committed : Bool
  header : String → Option String
  status : ℤ
  sent : String → Option String
  body : Bytes

abbrev put : String → String → (String → Option String) → String → Option String
put k v h n = if eq_text k n then some v else h n

abbrev recording : ResponseWriter Recorder
recording = record {
  set_header = λ k v w. record w { header = put k v w.header };
  write_header = λ s w. record w { committed = true; status = s; sent = w.header };
  write = λ b w. record w { body = w.body ++ b };
}

put_same : (k v : String) (h : String → Option String) → put k v h k ≡ some v
put_same k v h = rw ((eq_text_iff k k).1 refl) refl

put_other : (k v n : String) (h : String → Option String) → n ≢ k → put k v h n ≡ h n
put_other k v n h ne = elim (Bool-cases (eq_text k n)) [
  | inl e ↦ absurd (ne (sym ((eq_text_iff k n).0 e)))
  | inr e ↦ rw e refl
]

abbrev documented : Documented recording
documented = record {
  committed = λ w. w.committed;
  header = λ w. w.header;
  status = λ w. w.status;
  sent = λ w. w.sent;
  body = λ w. w.body;
  set_same = λ k v w. put_same k v w.header;
  set_other = λ k v n w ne. put_other k v n w.header ne;
  set_committed = λ k v w. refl;
  set_body = λ k v w. refl;
  commits = λ s w a f. (refl, refl, refl, refl);
  writes = λ b w c a. (c, refl, refl, refl);
}

abbrev blank : Recorder
blank = record {
  committed = false;
  header = λ n. none;
  status = pos 200;
  sent = λ n. none;
  body = [];
}

abbrev fresh : IsFresh recording documented blank
fresh = record { uncommitted = refl; empty = refl }

abbrev Value : Type 0
Value = Bytes × Option Secret

abbrev encode_text : Heap → Value → Bytes × Option Bytes
encode_text h (text, none) = (text, none)
encode_text h (text, some s) = elim (marshal_json h s).1 [
  | none ↦ (text, none)
  | some err_serialized ↦ (text, some (codes "secret"))
  | some (err_json e) ↦ (text, some e)
]

abbrev Stops : Value → Secret → Type 0
Stops v s = v.1 ≡ some s

abbrev wrapped : Value → SecretError → Bytes
wrapped v err_serialized = codes "secret"
wrapped v (err_json e) = e

abbrev login : HttpRequest
login = record { path = codes "/login" }

abbrev hidden : Secret
hidden = record { b = none }

answered :
    ((write_json recording
        (encode_text [])
        blank
        []
        login
        (pos 201)
        (codes "{", some hidden)).0.body
      ≡ codes "{\"error\":{\"code\":\"internal_error\"}}")
    × ((write_json recording (encode_text []) blank [] login (pos 201) (codes "{}", none)).0.body
        ≡ codes "{}")
unfolding write_json envelope marshal_json
answered = (refl, refl)
