-- ===== src/Graph.antt =====
-- internal/graphclient and internal/graphprocessor: the writing of a password to Microsoft Graph.
pub mod Body
pub mod Client
pub mod Processor
