-- ===== src/Http/Logged.antt =====
-- When AccessLog of internal/middleware/accesslog.go logs the status that is sent.
use password_hook_service.Prelude.{ℕ, ◌<◌, List, [], ◌∷◌, ◌≡◌, refl, arith, if◌then◌else◌, ◌==◌}
use password_hook_service.Http.Writer.{
  WriterCall, set_header, write_header, write_body, sent_status, record_call, record_calls,
  logged_status,
}

module _ {B : Type 0} where
  -- No status is written.
  abbrev pub NoHeader : List (WriterCall B) → Type 0
  NoHeader [] = Unit
  NoHeader (set_header name value ∷ calls) = NoHeader calls
  NoHeader (write_header status ∷ calls) = ⊥
  NoHeader (write_body b ∷ calls) = NoHeader calls

  -- A status is written once at most, before all else that is written, and it is not 0.
  abbrev pub IsOrderly : List (WriterCall B) → Type 0
  IsOrderly [] = Unit
  IsOrderly (set_header name value ∷ calls) = IsOrderly calls
  IsOrderly (write_header status ∷ calls) = (0 < status) × NoHeader calls
  IsOrderly (write_body b ∷ calls) = NoHeader calls

  record_calls-kept :
      (status : ℕ) (calls : List (WriterCall B))
      → 0 < status
      → NoHeader calls
      → record_calls status calls ≡ status
  unfolding record_calls record_call
  record_calls-kept status [] h n = refl
  record_calls-kept status (set_header name value ∷ calls) h n = record_calls-kept status calls h n
  record_calls-kept status (write_header s ∷ calls) h n = elim n [ ]
  record_calls-kept status (write_body b ∷ calls) h n =
      let same : (if status == 0 then 200 else status) ≡ status = ground arith in
      rw same (record_calls-kept status calls h n)

  -- The status that is logged is the status that is sent, if it is written once at most and first.
  pub logged_status-sent :
      (calls : List (WriterCall B)) → IsOrderly calls → logged_status calls ≡ sent_status calls
  unfolding logged_status sent_status record_calls record_call
  logged_status-sent [] o = refl
  logged_status-sent (set_header name value ∷ calls) o = logged_status-sent calls o
  logged_status-sent (write_header status ∷ calls) (h, n) =
      rw (record_calls-kept status calls h n) (ground arith)
  logged_status-sent (write_body b ∷ calls) n = rw (record_calls-kept 200 calls (omega arith) n)
