-- ===== src/Middleware.antt =====
-- internal/middleware: the checks that a request passes before the hook handler sees it.
pub mod Clock
pub mod Nonce
pub mod Hmac
pub mod RateLimit
pub mod Source
