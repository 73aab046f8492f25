-- ===== src/Queue/Sender.antt =====
-- Queue of internal/servicebusqueue/queue.go and DeadLetterQueue of deadletter.go: what they send, and
-- how they close. The calls of the Azure client are recorded, newest first; json.Marshal and the
-- layouts of time.Format are parameters.
pub mod Laws
use password_hook_service.Prelude.{
  ℕ, ◌*◌, Bool, true, false, Option, none, some, List, [], ◌∷◌, ◌++◌, if◌then◌else◌, Text, codes, ℤ,
  positive_or,
}
use password_hook_service.Prelude.Effects.{Exec, call, pure, ◌>>=◌}
use password_hook_service.Migration.Message.{PasswordSyncMessage}
use password_hook_service.Worker.Defs.{DeadLetterEntry}

-- azservicebus.Message, with the application properties that are set.
pub record BusMessage : Type 0 where
  pub kind : Text
  pub cn : Text
  pub upn : Text
  pub reason : Option Text
  pub body : Text
  pub content_type : Text
  pub message_id : Option Text
  pub subject : Text
  pub time_to_live : Option ℕ

pub data Call : Type 0 where
  send_message : BusMessage → Call
  close_sender close_client : Call

pub data SendError : Type 0 where
  marshal_failed : SendError
  send_failed : Text → SendError

-- What the Azure sender and client return after a given history.
pub record Answers : Type 0 where
  pub send_result : List Call → Option Text
  pub close_sender_result : List Call → Option Text
  pub close_client_result : List Call → Option Text

-- 300 * time.Second
abbrev pub default_ttl : ℕ
default_ttl = 300 * 1000000000

-- The time to live of NewWithClient.
unfoldable pub new_ttl : ℤ → ℕ
new_ttl ttl = positive_or default_ttl ttl

sent : Option Text → Option SendError
sent none = none
sent (some e) = some (send_failed e)

abbrev send_bus_message : Answers → BusMessage → Exec Call (Option SendError)
send_bus_message a msg = do failure ← call (send_message msg) a.send_result; pure (sent failure)

abbrev pub password_sync_message : (ℕ → Text) → ℕ → PasswordSyncMessage → Text → BusMessage
password_sync_message format_time ttl msg body = record {
  kind = codes "password-sync";
  cn = msg.cn;
  upn = msg.upn;
  reason = none;
  body = body;
  content_type = codes "application/json";
  message_id = some (msg.upn ++ (b':' ∷ format_time msg.enqueued_at));
  subject = codes "password-sync";
  time_to_live = some ttl;
}

unfoldable pub enqueue_password_sync :
    Answers
    → (ℕ → Text)
    → (PasswordSyncMessage → Option Text)
    → ℕ
    → PasswordSyncMessage
    → Exec Call (Option SendError)
unfolding sent
enqueue_password_sync a format_time marshal ttl msg = elim (marshal msg) [
  | none ↦ pure (some marshal_failed)
  | some body ↦ send_bus_message a (password_sync_message format_time ttl msg body)
]

abbrev pub dead_letter_message : (DeadLetterEntry → Text) → DeadLetterEntry → Text → BusMessage
dead_letter_message reason_text entry body = record {
  kind = codes "password-sync-dlq";
  cn = entry.cn;
  upn = entry.upn;
  reason = some (reason_text entry);
  body = body;
  content_type = codes "application/json";
  message_id = none;
  subject = codes "password-sync-dlq";
  time_to_live = none;
}

-- The part of RecordPasswordSyncFailure after `entry.Password = ""`.
record_without_password :
    Answers
    → (DeadLetterEntry → Text)
    → (DeadLetterEntry → Option Text)
    → DeadLetterEntry
    → Exec Call (Option SendError)
unfolding sent
record_without_password a reason_text marshal entry = elim (marshal entry) [
  | none ↦ pure (some marshal_failed)
  | some body ↦ send_bus_message a (dead_letter_message reason_text entry body)
]

-- `reason_text` is the text of the entry's reason.
unfoldable pub record_password_sync_failure :
    Answers
    → (DeadLetterEntry → Text)
    → (DeadLetterEntry → Option Text)
    → DeadLetterEntry
    → Exec Call (Option SendError)
unfolding record_without_password
record_password_sync_failure a reason_text marshal entry =
    record_without_password a reason_text marshal (record entry { password = [] })

-- A part that may be nil is closed if it is there; its error joins the others.
close_part : Bool → Call → (List Call → Option Text) → List Text → Exec Call (List Text)
close_part false op result errors = pure errors
close_part true op result errors = do
  failure ← call op result
  elim failure [ none ↦ pure errors | some e ↦ pure (errors ++ e ∷ []) ]

-- Close of a queue with a sender and a client: the errors that are joined, in their order.
unfoldable pub close_queue : Answers → (has_sender has_client : Bool) → Exec Call (List Text)
unfolding close_part
close_queue a has_sender has_client = do
  errors ← close_part has_sender close_sender a.close_sender_result []
  close_part has_client close_client a.close_client_result errors
