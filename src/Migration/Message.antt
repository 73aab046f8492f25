-- ===== src/Migration/Message.antt =====
-- internal/migration/message.go, the envelope of internal/passwordcrypto/codec.go, and the
-- additional data that binds a ciphertext to its account and time.
use password_hook_service.Prelude.{ℕ, ◌∷◌, ◌++◌, Text, codes, trim_space}
use password_hook_service.Migration.Event.{EventType}

pub record Envelope : Type 0 where
  pub ciphertext : Text
  pub nonce : Text
  pub key_id : Text
  pub algorithm : Text

pub record PasswordSyncMessage : Type 0 where
  pub cn : Text
  pub upn : Text
  pub event_type : EventType
  pub trace_id : Text
  pub password : Text
  pub envelope : Envelope
  pub display_name : Text
  pub mail : Text
  pub enqueued_at : ℕ

abbrev pub aad_label : Text
aad_label = codes "password-sync"

-- `format_time` is t.UTC().Format(time.RFC3339Nano).
unfoldable pub password_aad : (ℕ → Text) → Text → Text → ℕ → Text
password_aad format_time cn upn enqueued_at =
    aad_label
    ++ (b'\n' ∷ (trim_space cn ++ (b'\n' ∷ (trim_space upn ++ (b'\n' ∷ format_time enqueued_at)))))
