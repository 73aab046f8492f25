-- ===== src/Worker/Defs.antt =====
-- The types of internal/worker/worker.go, and the calls that a worker makes.
use password_hook_service.Prelude.{ℕ, Option, List, Text, Result}
use password_hook_service.Migration.Message.{Envelope, PasswordSyncMessage}

pub record Message : Type 0 where
  pub body : Text
  pub kind : Text

pub record PasswordSyncCommand : Type 0 where
  pub cn : Text
  pub upn : Text
  pub trace_id : Text
  pub password : Text
  pub display_name : Text
  pub mail : Text
  pub enqueued_at : ℕ

-- The reasons and descriptions of a dead-letter entry are constants of the source.
pub data DeadLetterReason : Type 0 where
  invalid_message_schema permanent_processor_error transient_processor_retries_exhausted :
      DeadLetterReason

pub record DeadLetterEntry : Type 0 where
  pub kind : Text
  pub cn : Text
  pub upn : Text
  pub reason : DeadLetterReason
  pub attempts : ℕ
  pub enqueued_at : ℕ
  pub failed_at : ℕ
  pub password : Text

-- The error of a processor: does it wrap a *PermanentError?
pub data ProcessError : Type 0 where
  permanent_error transient_error : Text → ProcessError

pub data Action : Type 0 where
  worker_completed worker_failed worker_invalid worker_abandoned : Action

-- A label of an outcome; `safe_dlq_write_failed` is no dead-letter reason.
pub data OutcomeReason : Type 0 where
  no_reason safe_dlq_write_failed : OutcomeReason
  dead_lettered : DeadLetterReason → OutcomeReason

pub data Call : Type 0 where
  decrypt : Envelope → (aad : Text) → Call
  process : PasswordSyncCommand → Call
  zero_plaintext : Call
  sleep : ℕ → Call
  read_clock : Call
  zero_body : Call
  record_dead_letter : DeadLetterEntry → Call
  mark_synced : (upn : Text) → (source : ℕ) → Call
  mark_failed : (upn : Text) → (source : ℕ) → Call
  complete : Call
  abandon : Call
  record_outcome : Action → (upn : Text) → OutcomeReason → (attempts : ℕ) → Call

-- The worker, with what its collaborators return after a given history. The two decoders are
-- json.Unmarshal at the message and at the part of it that a dead-letter entry keeps.
pub record Worker : Type 0 where
  pub retry_backoffs : List ℕ
  pub unmarshal : Text → Option PasswordSyncMessage
  pub unmarshal_partial : Text → Option (Text × Text × ℕ)
  pub format_time : ℕ → Text
  pub decrypt_result : List Call → Result Text Text
  pub process_result : List Call → Option ProcessError
  pub sleep_result : List Call → Option Text
  pub clock_result : List Call → ℕ
  pub dead_letter_result : List Call → Option Text
  pub mark_synced_result : List Call → Option Text
  pub mark_failed_result : List Call → Option Text
  pub complete_result : List Call → Option Text
  pub abandon_result : List Call → Option Text
