-- ===== src/Journey.antt =====
-- A password on its way through the program: from Submit of internal/migration/service.go, through the
-- codec of internal/passwordcrypto and the queue of internal/servicebusqueue, to the processor of
-- internal/worker/worker.go. `IsWired` says that the parts are put together as internal/app/app.go does.
pub mod Arrival
use password_hook_service.Prelude.{
  ℕ, ◌<◌, Bool, false, Option, none, some, List, [], ◌∷◌, ◌≡◌, Text, codes, is_empty, is_blank,
  Result, ok,
}
use password_hook_service.Migration.Message.{Envelope, PasswordSyncMessage}
use password_hook_service.Migration.Service.{Service, Call, encrypt, enqueue}
use password_hook_service.Crypto.Codec
use password_hook_service.Crypto.Codec.{Base64, Codec}
use password_hook_service.Worker.Defs
use password_hook_service.Worker.Defs.{Message, Worker}
use password_hook_service.Queue.Sender.{BusMessage, password_sync_message}
use password_hook_service.Queue.Receiver.{Received, message_kind}

-- The service and the worker share a codec and the layout of time; the service's clock is not at the
-- zero time. Service Bus carries JSON that encodes a message without a password, which is read back.
pub record IsWired (b : Base64) (c : Codec) (s : Service) (w : Worker)
    (marshal : PasswordSyncMessage → Text) (nonces : List Call → Text) : Type 0 where
  pub encrypts :
      (password aad : Text) (h : List Call) {env : Envelope}
      → s.collaborators.encrypt_result (encrypt password aad ∷ h) ≡ ok env
      → Codec.encrypt b c none (some (nonces h)) password aad ≡ ok env
  pub decrypts :
      (env : Envelope) (aad password : Text) (h : List Defs.Call)
      → Codec.decrypt b c none env aad ≡ ok password
      → w.decrypt_result (Defs.decrypt env aad ∷ h) ≡ ok password
  pub key_named : is_blank c.key_id ≡ false
  pub nonces_drawn : (h : List Call) → is_empty (nonces h) ≡ false
  pub clock_runs : (h : List Call) → 0 < s.collaborators.clock_result h
  pub same_layout : w.format_time ≡ s.collaborators.format_time
  pub unmarshal-marshal :
      (m : PasswordSyncMessage) → m.password ≡ [] → w.unmarshal (marshal m) ≡ some m

-- What a history has put on the queue, the newest first.
abbrev pub queued : List Call → List PasswordSyncMessage
queued [] = []
queued (enqueue m ∷ h) = m ∷ queued h
queued (_ ∷ h) = queued h

-- The broker hands over the body and the properties of what was sent.
abbrev pub transported : BusMessage → Received
transported sent = record {
  body = sent.body;
  kind_property = some sent.kind;
  subject = some sent.subject;
}

-- The message of the worker for a message of the service: as EnqueuePasswordSync sends it, and as
-- ReceiveMessages copies it.
abbrev pub arriving : (ℕ → Text) → (PasswordSyncMessage → Text) → ℕ → PasswordSyncMessage → Message
arriving format_time marshal ttl m =
    let received = transported (password_sync_message format_time ttl m (marshal m)) in
    record { body = received.body; kind = message_kind received }
