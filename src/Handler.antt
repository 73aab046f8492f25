-- ===== src/Handler.antt =====
-- internal/handler/hook.go: the hook handler.
pub mod PasswordJson
pub mod Hook
