-- ===== src/Http.antt =====
-- What the service answers over HTTP: pkg/problem, internal/httpserver, and the middleware that stands around the
-- handlers of App/Chain.
pub mod Writer
pub mod Problem
pub mod Logged
pub mod Answers
pub mod Server
