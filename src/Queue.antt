-- ===== src/Queue.antt =====
-- internal/servicebusqueue: what is sent to the queue and received from it.
pub mod Receiver
pub mod Sender
pub mod Clients
pub mod Depth
