-- ===== src/Wire.antt =====
-- The encoding of the messages on the wire: samod-core/src/network/wire_protocol.rs, with the text
-- of a document's identifier, samod-core/src/document_id.rs.
pub mod Cbor
pub mod Encode
pub mod Decode
pub mod RoundTrip
mod Tests
