-- ===== src/Tests/Delivery.antt =====
-- The worker and the Graph client at concrete inputs.
use password_hook_service.Prelude.{
  ℕ, suc, ◌+◌, ◌≤◌, true, false, Option, none, some, List, [], ◌∷◌, ◌≡◌, inl, refl, arith, Text,
  codes, ok, tally, length, trim_space,
}
use password_hook_service.Migration.Event.{password_change}
use password_hook_service.Migration.Message.{PasswordSyncMessage}
use password_hook_service.Worker.Defs.{Message, PasswordSyncCommand, ProcessError, Worker}
use password_hook_service.Worker.Attempts.{process_password_sync, process_from, attempt}
use password_hook_service.Worker.Attempts.Laws.{
  is_process, is_zero_plaintext, is_settle, process_password_sync-bounds,
  process_password_sync-zeroes,
}
use password_hook_service.Worker.Settle.{process_message}
use password_hook_service.Worker.Settle.Laws.{
  IsCareful, process_message-once, process_message-IsCareful,
}
use password_hook_service.Handler.PasswordJson.{decode_json_string_bytes}
use password_hook_service.Graph.Body.{append_json_string}
use password_hook_service.Graph.Body.RoundTrip.{utf8, decode-append_json_string}
use password_hook_service.Graph.Client.{
  GraphError, permanent_error, lookup_user, Client, upsert_user_password,
}
use password_hook_service.Graph.Processor.{user_of}
use password_hook_service.Tests.Accounts.{sealed_password}

abbrev pub queued : PasswordSyncMessage
queued = record {
  cn = codes "0812345";
  upn = codes "0812345@nycu.edu.tw";
  event_type = password_change;
  trace_id = [];
  password = [];
  envelope = sealed_password;
  display_name = codes "Ann";
  mail = codes "a@b.c";
  enqueued_at = 7;
}

-- A worker with two backoffs, and a processor that fails.
abbrev busy : Worker
busy = record {
  retry_backoffs = 1 ∷ 2 ∷ [];
  unmarshal = λ t. some queued;
  unmarshal_partial = λ t. none;
  format_time = λ t. t ∷ [];
  decrypt_result = λ h. ok (codes "p@ss");
  process_result = λ h. some (ProcessError.transient_error (codes "busy"));
  sleep_result = λ h. none;
  clock_result = λ h. 9;
  dead_letter_result = λ h. none;
  mark_synced_result = λ h. none;
  mark_failed_result = λ h. none;
  complete_result = λ h. none;
  abandon_result = λ h. none;
}

abbrev received : Option Message
received = some (record { body = codes "{}"; kind = codes "password-sync" })

busy_gives_up : (process_password_sync busy queued []).0.attempts ≡ 3
unfolding process_password_sync process_from attempt
busy_gives_up = refl

process_password_sync-bounds_example :
    ((process_password_sync busy queued []).0.attempts ≤ suc (length busy.retry_backoffs))
    × (tally is_process (process_password_sync busy queued []).1
        ≤ tally is_process [] + suc (length busy.retry_backoffs))
process_password_sync-bounds_example = process_password_sync-bounds busy queued []

busy_failed : (process_password_sync busy queued []).0.err ≡ some (codes "busy")
unfolding process_password_sync process_from attempt
busy_failed = refl

busy_not_permanent : (process_password_sync busy queued []).0.permanent ≡ false
unfolding process_password_sync process_from attempt
busy_not_permanent = refl

busy_not_canceled : (process_password_sync busy queued []).0.retry_canceled ≡ false
unfolding process_password_sync process_from attempt
busy_not_canceled = refl

process_password_sync-zeroes_example :
    tally is_zero_plaintext (process_password_sync busy queued []).1 + tally is_process []
    ≡ tally is_process (process_password_sync busy queued []).1 + tally is_zero_plaintext []
process_password_sync-zeroes_example = process_password_sync-zeroes busy queued []

process_message-once_example :
    tally is_settle (process_message busy received []).1 ≡ suc (tally is_settle [])
process_message-once_example = process_message-once busy received []

process_message-IsCareful_example : IsCareful busy (process_message busy received []).1
process_message-IsCareful_example = process_message-IsCareful busy received

-- A password with a quotation mark, a control character and a letter of three bytes.
abbrev runes : List ℕ
runes = b'p' ∷ b'"' ∷ 7 ∷ 0x5BC6 ∷ []

decode-append_json_string_example :
    decode_json_string_bytes (append_json_string [] (utf8 runes)) ≡ ok (utf8 runes)
decode-append_json_string_example =
    decode-append_json_string runes
      (inl (omega arith), (inl (omega arith), (inl (omega arith), (inl (omega arith), tt))))

-- A Graph service that always answers with the given status.
abbrev pub answering : ℕ → Client
answering status = record {
  base_url = codes "https://graph.microsoft.com";
  path_escape = λ t. t;
  token_result = λ h. ok (codes "token");
  is_valid_request = λ m url. true;
  send_result = λ h. ok status;
}

abbrev pub command : PasswordSyncCommand
command = record {
  cn = codes "0812345";
  upn = codes "0812345@nycu.edu.tw";
  trace_id = [];
  password = codes "p@ss";
  display_name = codes "Ann";
  mail = codes "a@b.c";
  enqueued_at = 7;
}

forbidden :
    (upsert_user_password (answering 403) (user_of command) (codes "p@ss") []).0
    ≡ some (permanent_error 403 lookup_user)
unfolding upsert_user_password trim_space
forbidden = refl

abbrev describe : GraphError → Text
describe e = codes "graph error"
