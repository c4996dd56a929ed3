-- ===== src/Hub.antt =====
-- The hub: samod-core/src/actors/hub/.
pub mod Results
pub mod Connection
pub mod Listener
pub mod Searches
pub mod Pending
pub mod State
pub mod Queries
