-- ===== src/Migration/Event.antt =====
-- internal/migration/event.go. `EventType` is a string in the source: its constants are constructors
-- here, and `other` holds any other text, which is none of theirs.
use password_hook_service.Prelude.{Bool, true, false, Text, is_blank}

pub data EventType : Type 0 where
  login_bootstrap password_change password_recovery : EventType
  other : Text → EventType

unfoldable pub valid_event_type : EventType → Bool
valid_event_type (other t) = false
valid_event_type _ = true

-- strings.TrimSpace(string(t)) == ""
unfoldable pub is_blank_event : EventType → Bool
unfolding is_blank
is_blank_event (other t) = is_blank t
is_blank_event _ = false
