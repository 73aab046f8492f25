-- ===== src/Worker/Attempts.antt =====
-- processPasswordSync and processPasswordSyncAttempt of internal/worker/worker.go. The loop counts attempts and
-- reads retryBackoffs[attempts-1]; here it walks along the backoffs that are left.
pub mod Laws
use password_hook_service.Prelude.{
  ℕ, suc, Bool, true, false, Option, none, some, List, [], ◌∷◌, Text, Result, ok, err,
}
use password_hook_service.Prelude.Effects.{Exec, call, pure, tell, ◌>>=◌, ◌>>◌}
use password_hook_service.Migration.Message.{Envelope, PasswordSyncMessage, password_aad}
use password_hook_service.Worker.Defs.{
  PasswordSyncCommand, ProcessError, permanent_error, transient_error, Call, decrypt, process,
  zero_plaintext, sleep, Worker,
}

pub record ProcessorResult : Type 0 where
  pub err : Option Text
  pub attempts : ℕ
  pub permanent : Bool
  pub retry_canceled : Bool

abbrev pub succeeded : ℕ → ProcessorResult
succeeded n = record { err = none; attempts = n; permanent = false; retry_canceled = false }

abbrev pub failed_permanently : Text → ℕ → ProcessorResult
failed_permanently e n = record {
  err = some e;
  attempts = n;
  permanent = true;
  retry_canceled = false;
}

abbrev pub exhausted : Text → ℕ → ProcessorResult
exhausted e n = record { err = some e; attempts = n; permanent = false; retry_canceled = false }

abbrev pub canceled : Text → ℕ → ProcessorResult
canceled e n = record { err = some e; attempts = n; permanent = false; retry_canceled = true }

abbrev pub command_of : PasswordSyncMessage → Text → PasswordSyncCommand
command_of msg plaintext = record {
  cn = msg.cn;
  upn = msg.upn;
  trace_id = msg.trace_id;
  password = plaintext;
  display_name = msg.display_name;
  mail = msg.mail;
  enqueued_at = msg.enqueued_at;
}

abbrev pub message_aad : Worker → PasswordSyncMessage → Text
message_aad w msg = password_aad w.format_time msg.cn msg.upn msg.enqueued_at

-- What one round of the loop comes to.
pub data Attempt : Type 0 where
  done : Attempt
  hopeless : Text → Attempt
  retryable : Text → Attempt

attempt_of : Option ProcessError → Attempt
attempt_of none = done
attempt_of (some (permanent_error e)) = hopeless e
attempt_of (some (transient_error e)) = retryable e

-- The plaintext is zeroed when the processor returns.
process_plaintext : Worker → PasswordSyncMessage → Result Text Text → Exec Call Attempt
unfolding attempt_of
process_plaintext w msg (err e) = pure (hopeless e)
process_plaintext w msg (ok plaintext) = do
  failure ← call (process (command_of msg plaintext)) w.process_result
  _ ← tell zero_plaintext
  pure (attempt_of failure)

unfoldable pub attempt : Worker → PasswordSyncMessage → Exec Call Attempt
unfolding process_plaintext
attempt w msg = do
  plaintext ← call (decrypt msg.envelope (message_aad w msg)) w.decrypt_result
  process_plaintext w msg plaintext

-- How a round ends that is not followed by another one.
unfoldable pub last_round : ℕ → Attempt → Exec Call ProcessorResult
last_round n done = pure (succeeded n)
last_round n (hopeless e) = pure (failed_permanently e n)
last_round n (retryable e) = pure (exhausted e n)

resume : ℕ → Exec Call ProcessorResult → Option Text → Exec Call ProcessorResult
resume n retry none = retry
resume n retry (some e) = pure (canceled e n)

-- How a round ends while there is a backoff left.
unfoldable pub next_round :
    Worker → ℕ → ℕ → Exec Call ProcessorResult → Attempt → Exec Call ProcessorResult
unfolding resume
next_round w backoff n retry done = pure (succeeded n)
next_round w backoff n retry (hopeless e) = pure (failed_permanently e n)
next_round w backoff n retry (retryable e) = do
  interrupted ← call (sleep backoff) w.sleep_result
  resume n retry interrupted

unfoldable pub process_from : Worker → PasswordSyncMessage → List ℕ → ℕ → Exec Call ProcessorResult
unfolding last_round next_round
process_from w msg [] n = do outcome ← attempt w msg; last_round n outcome
process_from w msg (backoff ∷ backoffs) n = do
  outcome ← attempt w msg
  next_round w backoff n (process_from w msg backoffs (suc n)) outcome

unfoldable pub process_password_sync : Worker → PasswordSyncMessage → Exec Call ProcessorResult
process_password_sync w msg = process_from w msg w.retry_backoffs 1
