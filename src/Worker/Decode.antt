-- ===== src/Worker/Decode.antt =====
-- decodePasswordSyncMessage and invalidMessageDeadLetterEntry of internal/worker/worker.go.
use password_hook_service.Prelude.{
  ℕ, Bool, ◌||◌, Option, none, some, [], ◌==◌, if◌then◌else◌, Text, codes, trim_space, is_blank,
  same_text, not,
}
use password_hook_service.Migration.Message.{PasswordSyncMessage}
use password_hook_service.Worker.Defs.{Message, DeadLetterEntry, invalid_message_schema, Worker}

abbrev pub password_sync_kind : Text
password_sync_kind = codes "password-sync"

-- The fields that a message must have; the zero time is 0.
unfoldable pub is_incomplete : PasswordSyncMessage → Bool
is_incomplete m =
    is_blank m.cn
    || is_blank m.upn
    || is_blank m.envelope.ciphertext
    || is_blank m.envelope.nonce
    || is_blank m.envelope.key_id
    || is_blank m.envelope.algorithm
    || m.enqueued_at == 0

-- `none` for every error.
complete_message : Option PasswordSyncMessage → Option PasswordSyncMessage
unfolding is_incomplete
complete_message none = none
complete_message (some m) = if is_incomplete m then none else some m

unfoldable pub decode_password_sync_message : Worker → Option Message → Option PasswordSyncMessage
unfolding complete_message
decode_password_sync_message w none = none
decode_password_sync_message w (some msg) =
    if not (same_text (trim_space msg.kind) password_sync_kind)
    then none
    else complete_message (w.unmarshal msg.body)

abbrev blank_entry : ℕ → DeadLetterEntry
blank_entry failed_at = record {
  kind = password_sync_kind;
  cn = [];
  upn = [];
  reason = invalid_message_schema;
  attempts = 0;
  enqueued_at = 0;
  failed_at = failed_at;
  password = [];
}

entry_with : DeadLetterEntry → Option (Text × Text × ℕ) → DeadLetterEntry
entry_with entry none = entry
entry_with entry (some (cn, upn, enqueued_at)) = record entry {
  cn = cn;
  upn = upn;
  enqueued_at = enqueued_at;
}

unfoldable pub invalid_message_dead_letter_entry : Worker → Option Message → ℕ → DeadLetterEntry
unfolding entry_with
invalid_message_dead_letter_entry w none failed_at = blank_entry failed_at
invalid_message_dead_letter_entry w (some msg) failed_at =
    let kind : Text = if is_blank msg.kind then password_sync_kind else trim_space msg.kind in
    entry_with (record (blank_entry failed_at) { kind = kind }) (w.unmarshal_partial msg.body)
