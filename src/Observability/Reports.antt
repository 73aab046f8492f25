-- ===== src/Observability/Reports.antt =====
-- What is reported: recordMiddlewareOutcome of internal/middleware/observability.go, recordDecision and recordRejected of
-- internal/handler/hook.go, and recordOutcome of internal/worker/worker.go.
use password_hook_service.Prelude.{
  ℕ, Bool, true, false, Option, none, some, List, [], ◌∷◌, ◌++◌, if◌then◌else◌, ltb, Text, codes,
  same_text,
}
use password_hook_service.Monitor.{Labels}
use password_hook_service.Migration.Event.{
  EventType, login_bootstrap, password_change, password_recovery, other,
}
use password_hook_service.Migration.Identity.{
  IdentityType, unknown, student_id, employee_id, external_email,
}
use password_hook_service.Migration.Message.{PasswordSyncMessage}
use password_hook_service.Migration.Service.{
  Decision, Reason, cn_is_external_email, already_synced, sync_pending,
}
use password_hook_service.Middleware.Source.{Refusal, source_ip_not_allowed, request_rate_exceeded}
use password_hook_service.Middleware.Hmac.{
  Rejection, failed_to_read_request_body, request_body_too_large,
  missing_or_invalid_signature_headers, timestamp_outside_allowed_skew, signature_mismatch,
  nonce_replay,
}
use password_hook_service.Handler.Hook
use password_hook_service.Handler.Hook.{
  Response, accepted, method_not_allowed, internal_error, validation_problem, Reply, decided,
}
use password_hook_service.App.Chain.{Answer, refused, rejected, handled}
use password_hook_service.Worker.Defs.{
  DeadLetterReason, invalid_message_schema, permanent_processor_error,
  transient_processor_retries_exhausted, Action, worker_completed, worker_failed, worker_invalid,
  worker_abandoned, OutcomeReason, no_reason, safe_dlq_write_failed, dead_lettered,
}
use password_hook_service.Observability.{
  Signal, inc, log, LogAttrs, SafeIdentity, safe_identity_attrs, unless_empty, sprint,
  hook_requests_total, migration_skipped_total, middleware_requests_total, worker_messages_total,
}

-- The constants of the string types.
unfoldable pub event_text : EventType → Text
event_text login_bootstrap = codes "login_bootstrap"
event_text password_change = codes "password_change"
event_text password_recovery = codes "password_recovery"
event_text (other t) = t

abbrev pub optional_event : Option EventType → Text
optional_event none = []
optional_event (some e) = event_text e

unfoldable pub identity_text : Option IdentityType → Text
identity_text none = []
identity_text (some unknown) = codes "unknown"
identity_text (some student_id) = codes "student_id"
identity_text (some employee_id) = codes "employee_id"
identity_text (some external_email) = codes "external_email"

unfoldable pub reason_text : Option Reason → Text
reason_text none = []
reason_text (some cn_is_external_email) = codes "cn_is_external_email"
reason_text (some already_synced) = codes "already_synced"
reason_text (some sync_pending) = codes "sync_pending"

-- recordMiddlewareOutcome
unfoldable pub record_middleware_outcome :
    (trace_id middleware : Text) (status : ℕ) (outcome reason : Text) (extra : LogAttrs)
    → List Signal
unfolding sprint
record_middleware_outcome trace_id middleware status outcome reason extra =
    let action =
      if same_text outcome (codes "panic_recovered")
      then codes "middleware_panic_recovered"
      else codes "middleware_request_rejected" in
    inc middleware_requests_total (
      (codes "middleware", middleware)
      ∷ (codes "status", sprint status)
      ∷ (codes "outcome", outcome)
      ∷ unless_empty (codes "reason") reason [])
    ∷ log action (
        (codes "action", action)
        ∷ (codes "traceId", trace_id)
        ∷ (codes "middleware", middleware)
        ∷ (codes "status", sprint status)
        ∷ (codes "outcome", outcome)
        ∷ unless_empty (codes "reason") reason extra)
    ∷ []

unfoldable pub decision_outcome : Decision → Text
decision_outcome d =
    if d.skipped then codes "skipped" else if d.enqueued then codes "enqueued" else codes "accepted"

unfoldable pub decision_labels : (status : ℕ) → EventType → Decision → Labels
unfolding event_text identity_text reason_text sprint decision_outcome
decision_labels status event d =
    (codes "status", sprint status)
    ∷ (codes "outcome", decision_outcome d)
    ∷ (codes "eventType", event_text event)
    ∷ (codes "identityType", identity_text d.identity_type)
    ∷ unless_empty (codes "reason") (reason_text d.reason) []

-- The second count of a skipped request.
unfoldable pub skip_counts : Bool → Labels → List Signal
skip_counts true labels = inc migration_skipped_total labels ∷ []
skip_counts false labels = []

-- Hook.recordDecision
unfoldable pub record_decision : (trace_id : Text) (status : ℕ) → EventType → Decision → List Signal
unfolding event_text identity_text reason_text safe_identity_attrs sprint decision_outcome
    decision_labels skip_counts
record_decision trace_id status event d =
    let labels = decision_labels status event d in
    let action =
      if d.skipped
      then codes "hook_password_sync_skipped"
      else codes "hook_password_sync_accepted" in
    let identity : SafeIdentity = record {
      trace_id = trace_id;
      cn = [];
      upn = d.upn;
      event_type = event_text event;
      identity_type = identity_text d.identity_type;
    } in
    let line = log action (
      (codes "action", action)
      ∷ (codes "outcome", decision_outcome d)
      ∷ (codes "status", sprint status)
      ∷ (safe_identity_attrs identity
          ++ unless_empty (codes "reason") (reason_text d.reason) [])) in
    inc hook_requests_total labels ∷ (skip_counts d.skipped labels ++ line ∷ [])

-- Hook.recordRejected
unfoldable pub record_rejected :
    (trace_id : Text) (status : ℕ) (outcome : Text) → Option EventType → List Signal
unfolding event_text safe_identity_attrs sprint
record_rejected trace_id status outcome event =
    let action = codes "hook_password_sync_rejected" in
    let identity : SafeIdentity = record {
      trace_id = trace_id;
      cn = [];
      upn = [];
      event_type = optional_event event;
      identity_type = [];
    } in
    inc hook_requests_total (
      (codes "status", sprint status)
      ∷ (codes "outcome", outcome)
      ∷ unless_empty (codes "eventType") (optional_event event) [])
    ∷ log action (
        (codes "action", action)
        ∷ (codes "status", sprint status)
        ∷ (codes "outcome", outcome)
        ∷ safe_identity_attrs identity)
    ∷ []

-- Worker.recordOutcome
unfoldable pub record_outcome :
    (action : Text) → PasswordSyncMessage → (outcome reason : Text) (attempts : ℕ) → List Signal
unfolding event_text safe_identity_attrs sprint
record_outcome action msg outcome reason attempts =
    let counted = if ltb 0 attempts then (codes "attempts", sprint attempts) ∷ [] else [] in
    let identity : SafeIdentity = record {
      trace_id = msg.trace_id;
      cn = msg.cn;
      upn = msg.upn;
      event_type = event_text msg.event_type;
      identity_type = [];
    } in
    inc worker_messages_total (
      (codes "outcome", outcome)
      ∷ unless_empty (codes "eventType") (event_text msg.event_type)
          (unless_empty (codes "reason") reason counted))
    ∷ log action (
        (codes "action", action)
        ∷ (codes "outcome", outcome)
        ∷ (safe_identity_attrs identity ++ unless_empty (codes "reason") reason counted))
    ∷ []

unfoldable pub dead_letter_text : DeadLetterReason → Text
dead_letter_text invalid_message_schema = codes "invalid_message_schema"
dead_letter_text permanent_processor_error = codes "permanent_processor_error"
dead_letter_text transient_processor_retries_exhausted =
    codes "transient_processor_retries_exhausted"

unfoldable pub outcome_reason_text : OutcomeReason → Text
unfolding dead_letter_text
outcome_reason_text no_reason = []
outcome_reason_text safe_dlq_write_failed = codes "safe_dlq_write_failed"
outcome_reason_text (dead_lettered r) = dead_letter_text r

-- The calls of recordOutcome in processMessage and abandonAfterDeadLetterFailure, by their action.
unfoldable pub worker_signals :
    Action → PasswordSyncMessage → OutcomeReason → (attempts : ℕ) → List Signal
unfolding record_outcome outcome_reason_text
worker_signals worker_completed msg reason attempts =
    record_outcome (codes "worker_password_sync_completed") msg (codes "synced")
      (outcome_reason_text reason) attempts
worker_signals worker_failed msg reason attempts =
    record_outcome (codes "worker_password_sync_failed") msg (codes "sync_failed")
      (outcome_reason_text reason) attempts
worker_signals worker_invalid msg reason attempts =
    record_outcome (codes "worker_message_invalid") msg (codes "invalid_message")
      (outcome_reason_text reason) attempts
worker_signals worker_abandoned msg reason attempts =
    record_outcome (codes "worker_message_abandoned") msg (codes "abandoned")
      (outcome_reason_text reason) attempts

-- The reasons that the gate passes to writeUnauthorized and writePayloadTooLarge.
unfoldable pub rejection_text : Rejection → Text
rejection_text failed_to_read_request_body = codes "failed_to_read_request_body"
rejection_text request_body_too_large = codes "request_body_too_large"
rejection_text missing_or_invalid_signature_headers = codes "missing_or_invalid_signature_headers"
rejection_text timestamp_outside_allowed_skew = codes "timestamp_outside_allowed_skew"
rejection_text signature_mismatch = codes "signature_mismatch"
rejection_text nonce_replay = codes "nonce_replay"

unfoldable pub rejection_status : Rejection → ℕ
rejection_status request_body_too_large = 413
rejection_status _ = 401

unfoldable pub rejection_outcome : Rejection → Text
rejection_outcome request_body_too_large = codes "payload_too_large"
rejection_outcome _ = codes "unauthorized"

unfoldable pub rejection_signals : (trace_id : Text) → Rejection → List Signal
unfolding record_middleware_outcome rejection_text rejection_status rejection_outcome
rejection_signals trace_id e =
    record_middleware_outcome trace_id (codes "hmac") (rejection_status e) (rejection_outcome e)
      (rejection_text e) []

abbrev pub ratelimit : Text
ratelimit = codes "ratelimit"

-- `source` is what sourceIPResolutionAttrs returns.
unfoldable pub refusal_signals : (trace_id : Text) (source : LogAttrs) → Refusal → List Signal
unfolding record_middleware_outcome
refusal_signals trace_id source source_ip_not_allowed =
    record_middleware_outcome trace_id ratelimit 401 (codes "unauthorized")
      (codes "source_ip_not_allowed") source
refusal_signals trace_id source request_rate_exceeded =
    record_middleware_outcome trace_id ratelimit 429 (codes "rate_limited")
      (codes "request_rate_exceeded") []

unfoldable pub rejected_text : Response → Text
rejected_text accepted = []
rejected_text method_not_allowed = codes "method_not_allowed"
rejected_text internal_error = codes "accept_error"
rejected_text (validation_problem p) = codes "validation_error"

unfoldable pub reply_signals : (trace_id : Text) → Reply → List Signal
unfolding record_decision record_rejected rejected_text
reply_signals trace_id reply = elim reply.recorded [
  | decided event d ↦ record_decision trace_id 202 event d
  | Hook.rejected status event ↦
      record_rejected trace_id status (rejected_text reply.response) event
]

-- What the chain of handlers reports of its answer.
unfoldable pub answer_signals : (trace_id : Text) (source : LogAttrs) → Answer → List Signal
unfolding refusal_signals rejection_signals reply_signals
answer_signals trace_id source (refused e) = refusal_signals trace_id source e
answer_signals trace_id source (rejected e) = rejection_signals trace_id e
answer_signals trace_id source (handled reply) = reply_signals trace_id reply

-- What RecoveryWithOptions reports of a panic.
unfoldable pub panic_signals : (trace_id : Text) → List Signal
unfolding record_middleware_outcome
panic_signals trace_id =
    record_middleware_outcome trace_id (codes "recovery") 500 (codes "panic_recovered")
      (codes "panic") []
