-- ===== src/Observability.antt =====
-- internal/observability: the metrics and log lines that the components report, by internal/observability/events.go.
-- A log line is its action and attributes, whose values are their texts.
pub mod Reports
pub mod Kept
pub mod Recorder
pub mod Sources
use password_hook_service.Prelude.{
  ℕ, zero, suc, ◌+◌, ◌/◌, ◌%◌, Bool, true, false, List, [], ◌∷◌, if◌then◌else◌, ltb, is_empty, Text,
  codes,
}
use password_hook_service.Monitor.{Labels}

abbrev pub hook_requests_total : Text
hook_requests_total = codes "hook_requests_total"

abbrev pub migration_skipped_total : Text
migration_skipped_total = codes "migration_skipped_total"

abbrev pub middleware_requests_total : Text
middleware_requests_total = codes "middleware_requests_total"

abbrev pub worker_messages_total : Text
worker_messages_total = codes "worker_messages_total"

abbrev pub queue_depth : Text
queue_depth = codes "queue_depth"

abbrev pub LogAttrs : Type 0
LogAttrs = List (Text × Text)

-- A call of the recorder, or a line of the logger.
pub data Signal : Type 0 where
  inc : (metric : Text) → Labels → Signal
  log : (action : Text) → LogAttrs → Signal

pub record SafeIdentity : Type 0 where
  pub trace_id : Text
  pub cn : Text
  pub upn : Text
  pub event_type : Text
  pub identity_type : Text

-- `if value != "" { … }`
abbrev pub unless_empty : (key value : Text) → List (Text × Text) → List (Text × Text)
unless_empty key value rest = if is_empty value then rest else (key, value) ∷ rest

unfoldable pub safe_identity_attrs : SafeIdentity → LogAttrs
safe_identity_attrs i = unless_empty (codes "traceId") i.trace_id (
    unless_empty (codes "cn") i.cn (
      unless_empty (codes "upn") i.upn (
        unless_empty (codes "eventType") i.event_type
          (unless_empty (codes "identityType") i.identity_type []))))

digits : (fuel n : ℕ) → Text → Text
digits zero n out = out
digits (suc fuel) n out =
    let more = digits fuel (n / 10) ((b'0' + n % 10) ∷ out) in
    if ltb n 10 then (b'0' + n) ∷ out else more

-- fmt.Sprint of a number; a number has at most as many digits as it says.
unfoldable pub sprint : ℕ → Text
unfolding digits
sprint n = digits (suc n) n []
