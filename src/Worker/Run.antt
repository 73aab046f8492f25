-- ===== src/Worker/Run.antt =====
-- New and Run of internal/worker/worker.go. Run loops until its context is done, so the model runs a number
-- of rounds; `none` says that the loop goes on. What the receiver, the context and the worker's collaborators
-- answer is a function of the whole history.
pub mod Laws
pub mod Order
use password_hook_service.Prelude.{
  ℕ, zero, suc, ◌*◌, Bool, true, false, Option, none, some, List, [], ◌∷◌, if◌then◌else◌, not, Text,
  Result, ok, err, ℤ, positive_or,
}
use password_hook_service.Prelude.Effects.{Exec, call, pure, ◌>>=◌}
use password_hook_service.Worker.Defs
use password_hook_service.Worker.Defs.{Message, Worker}
use password_hook_service.Worker.Settle.{RunError, process_message}

-- The options of New that have a default; the durations are in nanoseconds.
pub record Options : Type 0 where
  pub max_messages : ℤ
  pub settlement_timeout : ℤ
  pub empty_receive_delay : ℤ
  pub retry_backoffs : List ℕ

pub record Settings : Type 0 where
  pub max_messages : ℕ
  pub settlement_timeout : ℕ
  pub empty_receive_delay : ℕ
  pub retry_backoffs : List ℕ

-- Which of the collaborators are there.
pub record Parts : Type 0 where
  pub receiver : Bool
  pub processor : Bool
  pub dead_letter_sink : Bool
  pub password_decrypter : Bool
  pub sync_status_recorder : Bool

pub data NewError : Type 0 where
  receiver_required processor_required dead_letter_sink_required : NewError
  password_decrypter_required sync_status_recorder_required : NewError

abbrev pub milliseconds : ℕ → ℕ
milliseconds n = n * 1000000

abbrev pub default_retry_backoffs : List ℕ
default_retry_backoffs = milliseconds 1000 ∷ milliseconds 2000 ∷ milliseconds 4000 ∷ []

backoffs_or_default : List ℕ → List ℕ
backoffs_or_default [] = default_retry_backoffs
backoffs_or_default (b ∷ bs) = b ∷ bs

unfoldable pub settings_of : Options → Settings
unfolding backoffs_or_default
settings_of o = record {
  max_messages = positive_or 1 o.max_messages;
  settlement_timeout = positive_or (milliseconds 10000) o.settlement_timeout;
  empty_receive_delay = positive_or (milliseconds 250) o.empty_receive_delay;
  retry_backoffs = backoffs_or_default o.retry_backoffs;
}

unfoldable pub new : Parts → Options → Result NewError Settings
unfolding settings_of
new parts o =
    if not parts.receiver
    then err receiver_required
    else if not parts.processor
    then err processor_required
    else if not parts.dead_letter_sink
    then err dead_letter_sink_required
    else if not parts.password_decrypter
    then err password_decrypter_required
    else if not parts.sync_status_recorder
    then err sync_status_recorder_required
    else ok (settings_of o)

-- A look at ctx.Err(), a ReceiveMessages, the wait after an empty one, and a processMessage with the
-- calls that it made, the newest first.
pub data RunCall : Type 0 where
  check_context receive wait : RunCall
  processed : Option Message → List Defs.Call → RunCall

pub record Surroundings : Type 0 where
  pub is_canceled : List RunCall → Bool
  pub receive_result : List RunCall → Result Text (List (Option Message))
  pub wait_result : List RunCall → Option Text
  pub worker : List RunCall → Worker

-- How Run returns: with nil, or with an error.
pub data RunEnd : Type 0 where
  stopped : RunEnd
  receive_failed : Text → RunEnd
  settlement_failed : RunError → RunEnd

end_of_settlement : Option RunError → Option RunEnd
end_of_settlement none = none
end_of_settlement (some e) = some (settlement_failed e)

-- processMessage starts from the history of the run, and records its own calls.
unfoldable pub process_one : Surroundings → Option Message → Exec RunCall (Option RunEnd)
unfolding end_of_settlement
process_one s msg h =
    let (failure, calls) = process_message (s.worker h) msg [] in
    (end_of_settlement failure, processed msg calls ∷ h)

unfoldable pub unless_ended :
    Option RunEnd → Exec RunCall (Option RunEnd) → Exec RunCall (Option RunEnd)
unless_ended none next = next
unless_ended (some e) next = pure (some e)

unfoldable pub unless_canceled : Bool → Exec RunCall (Option RunEnd) → Exec RunCall (Option RunEnd)
unless_canceled true next = pure (some stopped)
unless_canceled false next = next

-- The loop over the messages of a batch.
unfoldable pub process_batch : Surroundings → List (Option Message) → Exec RunCall (Option RunEnd)
unfolding process_one unless_ended unless_canceled
process_batch s [] = pure none
process_batch s (msg ∷ msgs) = do
  canceled ← call check_context s.is_canceled
  unless_canceled canceled (do ended ← process_one s msg; unless_ended ended (process_batch s msgs))

end_of_wait : Option Text → Option RunEnd
end_of_wait none = none
end_of_wait (some e) = some stopped

end_of_receive : Text → Bool → RunEnd
end_of_receive e true = stopped
end_of_receive e false = receive_failed e

unfoldable pub after_receive :
    Surroundings → Result Text (List (Option Message)) → Exec RunCall (Option RunEnd)
unfolding process_batch end_of_wait end_of_receive
after_receive s (err e) = do
  canceled ← call check_context s.is_canceled
  pure (some (end_of_receive e canceled))
after_receive s (ok []) = do failure ← call wait s.wait_result; pure (end_of_wait failure)
after_receive s (ok (msg ∷ msgs)) = process_batch s (msg ∷ msgs)

-- One round of the outer loop.
unfoldable pub round : Surroundings → Exec RunCall (Option RunEnd)
unfolding after_receive unless_canceled
round s = do
  canceled ← call check_context s.is_canceled
  unless_canceled canceled (do batch ← call receive s.receive_result; after_receive s batch)

unfoldable pub run : ℕ → Surroundings → Exec RunCall (Option RunEnd)
unfolding round unless_ended
run zero s = pure none
run (suc rounds) s = do ended ← round s; unless_ended ended (run rounds s)
