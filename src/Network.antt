-- ===== src/Network.antt =====
-- The shared vocabulary of the network side: identifiers, peer metadata, the owner of a connection
-- and what is reported of it (samod-core/src/network/*.rs, peer_id.rs, document_id.rs).
-- A document's UUID is its 128-bit value; other identifiers are the numbers that the source wraps.
use samod.Prelude.{ℕ, String, Bool, false, Option, none, List}
use samod.Prelude.Map.{Map}
use samod.Share.{ShareConfig}

abbrev pub ConnectionId : Type 0
ConnectionId = ℕ

abbrev pub DialerId : Type 0
DialerId = ℕ

abbrev pub ListenerId : Type 0
ListenerId = ℕ

abbrev pub DocumentActorId : Type 0
DocumentActorId = ℕ

abbrev pub DocumentId : Type 0
DocumentId = ℕ

abbrev pub IoTaskId : Type 0
IoTaskId = ℕ

abbrev pub CommandId : Type 0
CommandId = ℕ

abbrev pub PeerId : Type 0
PeerId = String

abbrev pub StorageId : Type 0
StorageId = String

-- Milliseconds since the epoch.
abbrev pub UnixTimestamp : Type 0
UnixTimestamp = ℕ

-- Automerge's hash of a change, as a number.
abbrev pub ChangeHash : Type 0
ChangeHash = ℕ

abbrev pub Bytes : Type 0
Bytes = List ℕ

-- `network::PeerMetadata` and its copy `wire_protocol::PeerMetadata` have the same two fields;
-- `to_wire` and `from_wire` copy them.
pub record PeerMetadata : Type 0 where
  pub is_ephemeral : Bool
  pub storage_id : Option StorageId

pub data ConnDirection : Type 0 where
  outgoing incoming : ConnDirection

pub data ConnectionOwner : Type 0 where
  dialer : DialerId → ConnectionOwner
  listener : ListenerId → ConnectionOwner

pub data ConnectionState : Type 0 where
  handshaking : ConnectionState
  connected : PeerId → ConnectionState

pub record PeerDocState : Type 0 where
  pub share_config : Option ShareConfig
  pub peer_read_only : Bool
  pub last_received : Option UnixTimestamp
  pub last_sent : Option UnixTimestamp
  pub last_sent_heads : Option (List ChangeHash)
  pub last_acked_heads : Option (List ChangeHash)
  pub shared_heads : Option (List ChangeHash)
  pub their_heads : Option (List ChangeHash)

-- `PeerDocState::empty`
abbrev pub empty_state : PeerDocState
empty_state = record {
  share_config = none;
  peer_read_only = false;
  last_received = none;
  last_sent = none;
  last_sent_heads = none;
  last_acked_heads = none;
  shared_heads = none;
  their_heads = none;
}

pub record ConnectionInfo : Type 0 where
  pub id : ConnectionId
  pub last_received : Option UnixTimestamp
  pub last_sent : Option UnixTimestamp
  pub docs : Map DocumentId PeerDocState
  pub state : ConnectionState

pub record PeerInfo : Type 0 where
  pub peer_id : PeerId
  pub metadata : Option PeerMetadata
  pub protocol_version : String

pub data ConnectionEvent : Type 0 where
  handshake_completed : ConnectionId → ConnectionOwner → PeerInfo → ConnectionEvent
  connection_failed : ConnectionId → ConnectionOwner → String → ConnectionEvent
  state_changed : ConnectionId → ConnectionOwner → ConnectionInfo → ConnectionEvent
