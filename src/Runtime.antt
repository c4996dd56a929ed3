-- ===== src/Runtime.antt =====
-- The runtime around the state machines: samod/src.
pub mod Storage
pub mod Mailbox
pub mod Task
pub mod Policies
pub mod DocActor
mod Tests
