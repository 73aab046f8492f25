-- ===== src/Queue/Sender/Laws.antt =====
-- What internal/servicebusqueue sends to the dead-letter queue, and how it closes.
use password_hook_service.Prelude.{
  ℕ, Bool, true, false, Option, List, ◌≡◌, refl, arith, Text, tally, ◌+◌,
}
use password_hook_service.Worker.Defs.{DeadLetterEntry}
use password_hook_service.Queue.Sender.{
  Answers, Call, close_sender, close_client, record_password_sync_failure, close_queue,
}

-- What is sent to the dead-letter queue does not depend on the password in the entry: with any other
-- password, the calls and the result are the same.
record-ignores_password :
    (a : Answers) (reason_text : DeadLetterEntry → Text) (marshal : DeadLetterEntry → Option Text)
    (entry : DeadLetterEntry) (password : Text) (h : List Call)
    → record_password_sync_failure a reason_text marshal (record entry { password = password }) h
      ≡ record_password_sync_failure a reason_text marshal entry h
unfolding record_password_sync_failure
record-ignores_password a reason_text marshal entry password h = refl

abbrev pub is_close : Call → Bool
is_close close_sender = true
is_close close_client = true
is_close _ = false

abbrev pub one_if_there : Bool → ℕ
one_if_there true = 1
one_if_there false = 0

-- Each part that is there is closed by one call, also if closing another part fails.
close_queue-closes :
    (a : Answers) (has_sender has_client : Bool) (h : List Call)
    → tally is_close (close_queue a has_sender has_client h).1
      ≡ one_if_there has_sender + one_if_there has_client + tally is_close h
unfolding close_queue
close_queue-closes a has_sender has_client h = ground arith
