-- ===== src/Document.antt =====
-- The actor of one document: samod-core/src/actors/document/*.rs.
mod Tests
pub mod Io
pub mod Library
pub mod Results
pub mod OnDisk
pub mod Load
pub mod Peer
pub mod Request
pub mod Phases
pub mod Actor
