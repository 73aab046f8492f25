-- ===== src/Http/Answers/Consistent.antt =====
-- The answers of the chain, the log lines and the problem documents agree.
use password_hook_service.Prelude.{ℕ, ◌<◌, true, [], ◌≡◌, refl, arith, Text, All}
use password_hook_service.Middleware.Source.{Refusal, source_ip_not_allowed, request_rate_exceeded}
use password_hook_service.Middleware.Hmac.{
  Rejection, failed_to_read_request_body, request_body_too_large,
  missing_or_invalid_signature_headers, timestamp_outside_allowed_skew, signature_mismatch,
  nonce_replay,
}
use password_hook_service.Handler.Hook.{
  Response, accepted, method_not_allowed, internal_error, validation_problem,
}
use password_hook_service.App.Chain.{Answer, refused, rejected, handled}
use password_hook_service.Http.Writer.{WriterCall, write_body, sent_status}
use password_hook_service.Http.Problem.{
  Problem, validation, unauthorized, too_many_requests, payload_too_large, internal, Body,
  problem_document, Calls, write,
}
use password_hook_service.Http.Logged.{IsOrderly}
use password_hook_service.Http.Answers.{
  refusal_calls, rejection_calls, response_calls, answer_calls, recovered,
}

-- A body is a problem document of the status, the path and the trace identifier.
abbrev pub IsTold : ℕ → (path trace_id : Text) → WriterCall Body → Type 0
IsTold status path trace_id (write_body (problem_document p)) =
    (p.status ≡ status) × (p.instance_path ≡ path) × (p.trace_id ≡ trace_id)
IsTold status path trace_id (write_body _) = ⊥
IsTold status path trace_id _ = Unit

-- The calls of a handler that writes one status, and no body or its problem document.
pub record IsAnswer (path trace_id : Text) (calls : Calls) : Type 0 where
  pub orderly : IsOrderly calls
  pub told : All (IsTold (sent_status calls) path trace_id) calls

write-IsAnswer : (p : Problem) → 0 < p.status → IsAnswer p.instance_path p.trace_id (write p)
unfolding write sent_status
write-IsAnswer p h = record { orderly = (h, tt); told = (tt, (tt, ((refl, refl, refl), tt))) }

module _ (base_url path trace_id : Text) where
  refusal-IsAnswer : (e : Refusal) → IsAnswer path trace_id (refusal_calls base_url path trace_id e)
  unfolding refusal_calls unauthorized too_many_requests
  refusal-IsAnswer source_ip_not_allowed = write-IsAnswer _ (omega arith)
  refusal-IsAnswer request_rate_exceeded = write-IsAnswer _ (omega arith)

  rejection-IsAnswer :
      (e : Rejection) → IsAnswer path trace_id (rejection_calls base_url path trace_id e)
  unfolding rejection_calls unauthorized payload_too_large
  rejection-IsAnswer failed_to_read_request_body = write-IsAnswer _ (omega arith)
  rejection-IsAnswer request_body_too_large = write-IsAnswer _ (omega arith)
  rejection-IsAnswer missing_or_invalid_signature_headers = write-IsAnswer _ (omega arith)
  rejection-IsAnswer timestamp_outside_allowed_skew = write-IsAnswer _ (omega arith)
  rejection-IsAnswer signature_mismatch = write-IsAnswer _ (omega arith)
  rejection-IsAnswer nonce_replay = write-IsAnswer _ (omega arith)

  response-IsAnswer :
      (e : Response) → IsAnswer path trace_id (response_calls base_url path trace_id e)
  unfolding response_calls internal validation
  response-IsAnswer accepted = record { orderly = (omega arith, tt); told = (tt, tt) }
  response-IsAnswer method_not_allowed = record { orderly = (omega arith, tt); told = (tt, tt) }
  response-IsAnswer internal_error = write-IsAnswer _ (omega arith)
  response-IsAnswer (validation_problem p) = write-IsAnswer _ (omega arith)

  pub answer-IsAnswer :
      (a : Answer) → IsAnswer path trace_id (answer_calls base_url path trace_id a)
  unfolding answer_calls
  answer-IsAnswer (refused e) = refusal-IsAnswer e
  answer-IsAnswer (rejected e) = rejection-IsAnswer e
  answer-IsAnswer (handled reply) = response-IsAnswer reply.response

  pub panic-IsAnswer : IsAnswer path trace_id (recovered base_url path trace_id [] true)
  unfolding recovered internal
  panic-IsAnswer = write-IsAnswer _ (omega arith)
