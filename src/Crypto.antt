-- ===== src/Crypto.antt =====
-- internal/passwordcrypto: the envelope of a password.
pub mod Codec
