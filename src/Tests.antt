-- ===== src/Tests.antt =====
-- Runs of the definitions, and each theorem at a concrete input.
pub mod Accounts
pub mod Statuses
pub mod Gate
pub mod Sources
pub mod Delivery
pub mod Hook
pub mod Settings
pub mod Receiving
pub mod Wires
pub mod Running
pub mod Logs
pub mod Start
pub mod Served
pub mod Exported
pub mod Recorded
pub mod Web
pub mod Upserts
pub mod Clients
pub mod Deduped
pub mod Arrival
