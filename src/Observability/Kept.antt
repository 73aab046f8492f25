-- ===== src/Observability/Kept.antt =====
-- The labels that the components report, against those that the exporter of internal/azuremonitor/metrics.go allows.
use password_hook_service.Prelude.{
  ℕ, suc, ◌≤◌, Bool, true, false, [], ◌∷◌, ◌≡◌, refl, arith, if◌then◌else◌, length, is_empty, Text,
  codes, same_text, Bool-cases, inl, inr, All, All-append, ltb, Option,
}
use password_hook_service.Monitor.{Labels, allowed_labels}
use password_hook_service.Monitor.Kept.{without_blanks, allowed_labels-without_blanks}
use password_hook_service.Monitor.Allowed.{AllowedName, AllowedLabels}
use password_hook_service.Migration.Event.{EventType}
use password_hook_service.Migration.Message.{PasswordSyncMessage}
use password_hook_service.Migration.Service.{Decision}
use password_hook_service.Middleware.Source.{source_ip_not_allowed, request_rate_exceeded}
use password_hook_service.Handler.Hook.{Reply, Recorded, decided}
use password_hook_service.Handler.Hook
use password_hook_service.App.Chain.{Answer, refused, rejected, handled}
use password_hook_service.Worker.Defs.{
  Action, worker_completed, worker_failed, worker_invalid, worker_abandoned, OutcomeReason,
}
use password_hook_service.Observability.{
  Signal, inc, log, hook_requests_total, LogAttrs, unless_empty, sprint,
}
use password_hook_service.Observability.Reports.{
  event_text, optional_event, reason_text, outcome_reason_text, rejected_text, rejection_status,
  rejection_outcome, rejection_text, ratelimit, decision_labels, skip_counts,
  record_middleware_outcome, record_decision, record_rejected, record_outcome, worker_signals,
  rejection_signals, refusal_signals, reply_signals, answer_signals, panic_signals,
}

-- At most so many labels, which are all allowed.
abbrev Fits : ℕ → Labels → Type 0
Fits n labels = AllowedLabels labels × (length labels ≤ n)

unless_empty-Fits :
    (n : ℕ) (key value : Text) (rest : Labels)
    → AllowedName key
    → Fits n rest
    → Fits (suc n) (unless_empty key value rest)
unless_empty-Fits n key value rest known (h, l) = elim (Bool-cases (is_empty value)) [
  | inl e ↦ rw e (h, omega arith)
  | inr e ↦ rw e ((known, h), omega arith)
]

-- The exporter takes every label of a count but the blank ones, whose values it trims.
unfoldable pub IsKept : Signal → Type 0
IsKept (inc metric labels) = allowed_labels labels ≡ without_blanks labels
IsKept (log action attrs) = Unit

inc-IsKept : (metric : Text) (labels : Labels) → Fits 9 labels → IsKept (inc metric labels)
unfolding IsKept
inc-IsKept metric labels (h, l) = allowed_labels-without_blanks labels h l

log-IsKept : (action : Text) (attrs : LogAttrs) → IsKept (log action attrs)
unfolding IsKept
log-IsKept action attrs = tt

middleware-IsKept :
    (trace_id middleware : Text) (status : ℕ) (outcome reason : Text) (extra : LogAttrs)
    → All IsKept (record_middleware_outcome trace_id middleware status outcome reason extra)
unfolding record_middleware_outcome AllowedName same_text
middleware-IsKept trace_id middleware status outcome reason extra =
    let (h, l) = unless_empty-Fits 0 (codes "reason") reason [] refl (tt, omega arith) in
    (inc-IsKept _ _ ((refl, (refl, (refl, h))), omega (arith, l)), (log-IsKept _ _, tt))

decision_labels-Fits :
    (status : ℕ) (event : EventType) (d : Decision) → Fits 9 (decision_labels status event d)
unfolding decision_labels AllowedName same_text
decision_labels-Fits status event d =
    let (h, l) =
      unless_empty-Fits 0 (codes "reason") (reason_text d.reason) [] refl (tt, omega arith) in
    ((refl, (refl, (refl, (refl, h)))), omega (arith, l))

skip_counts-IsKept :
    (skipped : Bool) (labels : Labels) → Fits 9 labels → All IsKept (skip_counts skipped labels)
unfolding skip_counts
skip_counts-IsKept true labels fits = (inc-IsKept _ labels fits, tt)
skip_counts-IsKept false labels fits = tt

decision-IsKept :
    (trace_id : Text) (status : ℕ) (event : EventType) (d : Decision)
    → All IsKept (record_decision trace_id status event d)
unfolding record_decision
decision-IsKept trace_id status event d =
    let labels = decision_labels status event d in
    let fits = decision_labels-Fits status event d in
    (
      inc-IsKept hook_requests_total labels fits,
      All-append IsKept (skip_counts d.skipped labels) _ (skip_counts-IsKept d.skipped labels fits)
          (log-IsKept _ _, tt),
    )

rejected-IsKept :
    (trace_id : Text) (status : ℕ) (outcome : Text) (event : Option EventType)
    → All IsKept (record_rejected trace_id status outcome event)
unfolding record_rejected AllowedName same_text
rejected-IsKept trace_id status outcome event =
    let (h, l) =
      unless_empty-Fits 0 (codes "eventType") (optional_event event) [] refl (tt, omega arith) in
    (inc-IsKept _ _ ((refl, (refl, h)), omega (arith, l)), (log-IsKept _ _, tt))

counted-Fits :
    (attempts : ℕ)
    → Fits 1 (if ltb 0 attempts then (codes "attempts", sprint attempts) ∷ [] else [])
unfolding AllowedName same_text
counted-Fits attempts = elim (Bool-cases (ltb 0 attempts)) [
  | inl some_made ↦ rw some_made ((refl, tt), omega arith)
  | inr none_made ↦ rw none_made (tt, omega arith)
]

outcome-IsKept :
    (action : Text) (msg : PasswordSyncMessage) (outcome reason : Text) (attempts : ℕ)
    → All IsKept (record_outcome action msg outcome reason attempts)
unfolding record_outcome AllowedName same_text
outcome-IsKept action msg outcome reason attempts =
    let counted = unless_empty-Fits 1 (codes "reason") reason _ refl (counted-Fits attempts) in
    let (h, l) =
      unless_empty-Fits 2 (codes "eventType") (event_text msg.event_type) _ refl counted in
    (inc-IsKept _ _ ((refl, h), omega (arith, l)), (log-IsKept _ _, tt))

worker-IsKept :
    (action : Action) (msg : PasswordSyncMessage) (reason : OutcomeReason) (attempts : ℕ)
    → All IsKept (worker_signals action msg reason attempts)
unfolding worker_signals
worker-IsKept worker_completed msg reason attempts =
    outcome-IsKept (codes "worker_password_sync_completed") msg (codes "synced")
      (outcome_reason_text reason) attempts
worker-IsKept worker_failed msg reason attempts =
    outcome-IsKept (codes "worker_password_sync_failed") msg (codes "sync_failed")
      (outcome_reason_text reason) attempts
worker-IsKept worker_invalid msg reason attempts =
    outcome-IsKept (codes "worker_message_invalid") msg (codes "invalid_message")
      (outcome_reason_text reason) attempts
worker-IsKept worker_abandoned msg reason attempts =
    outcome-IsKept (codes "worker_message_abandoned") msg (codes "abandoned")
      (outcome_reason_text reason) attempts

recorded-IsKept :
    (trace_id outcome : Text) (r : Recorded)
    → All IsKept (elim r [
      | decided event d ↦ record_decision trace_id 202 event d
      | Hook.rejected status event ↦ record_rejected trace_id status outcome event
    ])
recorded-IsKept trace_id outcome (decided event d) = decision-IsKept trace_id 202 event d
recorded-IsKept trace_id outcome (Hook.rejected status event) =
    rejected-IsKept trace_id status outcome event

answer-IsKept :
    (trace_id : Text) (source : LogAttrs) (a : Answer)
    → All IsKept (answer_signals trace_id source a)
unfolding answer_signals refusal_signals rejection_signals reply_signals
answer-IsKept trace_id source (refused source_ip_not_allowed) =
    middleware-IsKept trace_id ratelimit 401 (codes "unauthorized") (codes "source_ip_not_allowed")
      source
answer-IsKept trace_id source (refused request_rate_exceeded) =
    middleware-IsKept trace_id ratelimit 429 (codes "rate_limited") (codes "request_rate_exceeded")
      []
answer-IsKept trace_id source (rejected e) =
    middleware-IsKept trace_id (codes "hmac") (rejection_status e) (rejection_outcome e)
      (rejection_text e) []
answer-IsKept trace_id source (handled reply) =
    recorded-IsKept trace_id (rejected_text reply.response) reply.recorded

-- No label that the chain of handlers, the recovery or the worker counts is lost in the exporter, which drops
-- labels of other names: it keeps each, with its value trimmed, but for those whose value is blank.
pub reports-IsKept :
    (trace_id : Text) (source : LogAttrs) (a : Answer) (action : Action) (msg : PasswordSyncMessage)
    (reason : OutcomeReason) (attempts : ℕ)
    → All IsKept (answer_signals trace_id source a)
      × All IsKept (panic_signals trace_id)
      × All IsKept (worker_signals action msg reason attempts)
unfolding panic_signals
reports-IsKept trace_id source a action msg reason attempts = (
  answer-IsKept trace_id source a,
  middleware-IsKept trace_id (codes "recovery") 500 (codes "panic_recovered") (codes "panic") [],
  worker-IsKept action msg reason attempts,
)
