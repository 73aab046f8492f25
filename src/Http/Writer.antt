-- ===== src/Http/Writer.antt =====
-- The calls of an http.ResponseWriter, and statusRecorder and AccessLog of internal/middleware/accesslog.go.
use password_hook_service.Prelude.{ℕ, List, [], ◌∷◌, if◌then◌else◌, ◌==◌, Text}

-- A call, with the type of the bodies that are encoded.
pub data WriterCall (B : Type 0) : Type 0 where
  set_header : (name value : Text) → WriterCall B
  write_header : (status : ℕ) → WriterCall B
  write_body : B → WriterCall B

module _ {B : Type 0} where
  -- What net/http documents: the first call of WriteHeader or Write decides on the status.
  unfoldable pub sent_status : List (WriterCall B) → ℕ
  sent_status [] = 200
  sent_status (set_header name value ∷ calls) = sent_status calls
  sent_status (write_header status ∷ calls) = status
  sent_status (write_body b ∷ calls) = 200

  -- The methods of statusRecorder, on its field `status`.
  unfoldable pub record_call : ℕ → WriterCall B → ℕ
  record_call status (set_header name value) = status
  record_call status (write_header s) = s
  record_call status (write_body b) = if status == 0 then 200 else status

  unfoldable pub record_calls : ℕ → List (WriterCall B) → ℕ
  record_calls status [] = status
  record_calls status (c ∷ calls) = record_calls (record_call status c) calls

  -- The status that AccessLog logs of the calls of `next`.
  unfoldable pub logged_status : List (WriterCall B) → ℕ
  logged_status calls = let status = record_calls 0 calls in if status == 0 then 200 else status
