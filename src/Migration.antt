-- ===== src/Migration.antt =====
-- internal/migration: who a CN names, why the portal called, and the submission of a password.
pub mod Identity
pub mod Event
pub mod Message
pub mod Service
