-- ===== src/Worker/Settle.antt =====
-- processMessage of internal/worker/worker.go: decode, process, and settle a message. The zeroing of
-- the body is recorded for a nil message too, where it does nothing.
pub mod Laws
use password_hook_service.Prelude.{
  ℕ, Bool, true, false, Option, none, some, List, [], ◌∷◌, if◌then◌else◌, Text,
}
use password_hook_service.Prelude.Effects.{Exec, call, pure, tell, ◌>>=◌, ◌>>◌}
use password_hook_service.Migration.Message.{PasswordSyncMessage}
use password_hook_service.Worker.Defs.{
  Message, DeadLetterEntry, DeadLetterReason, invalid_message_schema, permanent_processor_error,
  transient_processor_retries_exhausted, Action, worker_completed, worker_failed, worker_invalid,
  worker_abandoned, OutcomeReason, no_reason, safe_dlq_write_failed, dead_lettered, Call,
  read_clock, zero_body, record_dead_letter, mark_synced, mark_failed, complete, abandon,
  record_outcome, Worker,
}
use password_hook_service.Worker.Decode.{
  password_sync_kind, decode_password_sync_message, invalid_message_dead_letter_entry,
}
use password_hook_service.Worker.Attempts.{ProcessorResult, process_password_sync}

-- The error that stops the worker.
pub data RunError : Type 0 where
  complete_failed abandon_failed : Text → RunError
  dead_letter_failed : Text → RunError
  dead_letter_and_abandon_failed : Text → Text → RunError

abbrev pub Settled : Type 0
Settled = Option RunError

-- recordPasswordSyncFailure: the entry goes out without a password.
unfoldable pub record_failure : Worker → DeadLetterEntry → Exec Call (Option Text)
record_failure w entry =
    call (record_dead_letter (record entry { password = [] })) w.dead_letter_result

-- CompleteMessage, and the outcome if it succeeded.
unfoldable pub complete_and_record : Worker → Action → Text → OutcomeReason → ℕ → Exec Call Settled
complete_and_record w action upn reason attempts = do
  failure ← call complete w.complete_result
  elim failure [
    | some e ↦ pure (some (complete_failed e))
    | none ↦ (do _ ← tell (record_outcome action upn reason attempts); pure none)
  ]

unfoldable pub abandon_after_dead_letter_failure : Worker → Text → Text → ℕ → Exec Call Settled
abandon_after_dead_letter_failure w e upn attempts = do
  failure ← call abandon w.abandon_result
  elim failure [
    | some e' ↦ pure (some (dead_letter_and_abandon_failed e e'))
    | none ↦ (do
      _ ← tell (record_outcome worker_abandoned upn safe_dlq_write_failed attempts)
      pure (some (dead_letter_failed e)))
  ]

unfoldable pub settle_invalid : Worker → Option Message → Exec Call Settled
unfolding record_failure complete_and_record abandon_after_dead_letter_failure
settle_invalid w msg = do
  failed_at ← call read_clock w.clock_result
  let entry = invalid_message_dead_letter_entry w msg failed_at
  _ ← tell zero_body
  failure ← record_failure w entry
  elim failure [
    | some e ↦ abandon_after_dead_letter_failure w e entry.upn 0
    | none ↦ complete_and_record w worker_invalid entry.upn (dead_lettered invalid_message_schema) 0
  ]

unfoldable pub settle_success : Worker → PasswordSyncMessage → ℕ → Exec Call Settled
unfolding complete_and_record
settle_success w msg attempts = do
  _ ← tell zero_body
  _ ← call (mark_synced msg.upn msg.enqueued_at) w.mark_synced_result
  complete_and_record w worker_completed msg.upn no_reason attempts

unfoldable pub settle_canceled : Worker → PasswordSyncMessage → ℕ → Exec Call Settled
settle_canceled w msg attempts = do
  _ ← tell zero_body
  failure ← call abandon w.abandon_result
  elim failure [
    | some e ↦ pure (some (abandon_failed e))
    | none ↦ (do _ ← tell (record_outcome worker_abandoned msg.upn no_reason attempts); pure none)
  ]

abbrev pub failure_reason : Bool → DeadLetterReason
failure_reason true = permanent_processor_error
failure_reason false = transient_processor_retries_exhausted

abbrev pub failure_entry : PasswordSyncMessage → Bool → ℕ → ℕ → DeadLetterEntry
failure_entry msg permanent attempts failed_at = record {
  kind = password_sync_kind;
  cn = msg.cn;
  upn = msg.upn;
  reason = failure_reason permanent;
  attempts = attempts;
  enqueued_at = msg.enqueued_at;
  failed_at = failed_at;
  password = [];
}

unfoldable pub settle_failure : Worker → PasswordSyncMessage → Bool → ℕ → Exec Call Settled
unfolding record_failure complete_and_record abandon_after_dead_letter_failure
settle_failure w msg permanent attempts = do
  _ ← tell zero_body
  failed_at ← call read_clock w.clock_result
  failure ← record_failure w (failure_entry msg permanent attempts failed_at)
  elim failure [
    | some e ↦ abandon_after_dead_letter_failure w e msg.upn attempts
    | none ↦ (do
      _ ← call (mark_failed msg.upn msg.enqueued_at) w.mark_failed_result
      complete_and_record w worker_failed msg.upn (dead_lettered (failure_reason permanent))
          attempts)
  ]

unfoldable pub settle_result : Worker → PasswordSyncMessage → ProcessorResult → Exec Call Settled
unfolding settle_success settle_canceled settle_failure
settle_result w msg result = elim result.err [
  | none ↦ settle_success w msg result.attempts
  | some e ↦
      if result.retry_canceled
      then settle_canceled w msg result.attempts
      else settle_failure w msg result.permanent result.attempts
]

settle_decoded : Worker → Option Message → Option PasswordSyncMessage → Exec Call Settled
unfolding settle_invalid settle_result
settle_decoded w msg none = settle_invalid w msg
settle_decoded w msg (some m) = do result ← process_password_sync w m; settle_result w m result

unfoldable pub process_message : Worker → Option Message → Exec Call Settled
unfolding settle_decoded
process_message w msg = settle_decoded w msg (decode_password_sync_message w msg)
