-- ===== src/Messages.antt =====
-- The messages between peers, the hub and the document actors
-- (samod-core/src/actors/messages/*.rs, doc_search.rs, ephemera/*.rs, and the types of
-- network/wire_protocol.rs).
use samod.Prelude.{ℕ, String, Bool, true, false, not, Option, List, if◌then◌else◌}
use samod.Prelude.Lists.{all, is_empty}
use samod.Prelude.Map.{Map, values}
use samod.Share.{ShareConfig}
use samod.Network.{
  ConnectionId, DocumentId, PeerId, StorageId, UnixTimestamp, Bytes, PeerMetadata, PeerDocState,
}

pub data SyncMessage : Type 0 where
  request : Bytes → SyncMessage
  sync : Bytes → SyncMessage
  doc_unavailable : SyncMessage

pub record EphemeralMessage : Type 0 where
  pub sender_id : PeerId
  pub session_id : String
  pub count : ℕ
  pub content : Bytes

pub data DocMessage : Type 0 where
  sync_msg : SyncMessage → DocMessage
  ephemeral_msg : EphemeralMessage → DocMessage

pub data Broadcast : Type 0 where
  fresh : Bytes → Broadcast
  gossip : EphemeralMessage → Broadcast

pub data PeerRequestState : Type 0 where
  blocked_by_policy requested unavailable syncing available : PeerRequestState

pub data DocSearchPhase : Type 0 where
  loading : DocSearchPhase
  searching : Map ConnectionId PeerRequestState → DocSearchPhase
  ready : DocSearchPhase

pub record DocSearch : Type 0 where
  pub phase : DocSearchPhase
  pub pending_connections : List String

abbrev gives_nothing : PeerRequestState → Bool
gives_nothing unavailable = true
gives_nothing blocked_by_policy = true
gives_nothing _ = false

abbrev nobody_has_it : DocSearchPhase → Bool
nobody_has_it (searching peers) = all gives_nothing (values peers)
nobody_has_it _ = false

pub is_currently_unavailable : DocSearch → Bool
is_currently_unavailable s =
    if not (is_empty s.pending_connections) then false else nobody_has_it s.phase

pub data HubToDocMsg : Type 0 where
  terminate : HubToDocMsg
  update_share_policy : PeerId → ShareConfig → HubToDocMsg
  new_connection : ConnectionId → PeerId → HubToDocMsg
  connection_closed : ConnectionId → HubToDocMsg
  handle_doc_message : ConnectionId → DocMessage → UnixTimestamp → HubToDocMsg

pub data DocToHubMsg : Type 0 where
  doc_search_changed : DocSearchPhase → DocToHubMsg
  peer_states_changed : Map ConnectionId PeerDocState → DocToHubMsg
  send_sync_message : ConnectionId → DocumentId → SyncMessage → DocToHubMsg
  broadcast : List ConnectionId → Broadcast → DocToHubMsg
  disconnect : ConnectionId → String → DocToHubMsg
  terminated : DocToHubMsg

pub record HeadsInfo : Type 0 where
  pub heads : List String
  pub timestamp : ℕ

-- The messages on the wire, each field in the order of the source's.
pub data WireMessage : Type 0 where
  join : PeerId → List String → Option PeerMetadata → WireMessage
  peer : PeerId → String → PeerId → Option PeerMetadata → WireMessage
  leave : PeerId → WireMessage
  request : DocumentId → PeerId → PeerId → Bytes → WireMessage
  sync : DocumentId → PeerId → PeerId → Bytes → WireMessage
  doc_unavailable : PeerId → PeerId → DocumentId → WireMessage
  ephemeral : PeerId → PeerId → ℕ → String → DocumentId → Bytes → WireMessage
  error : String → WireMessage
  remote_subscription_change :
      PeerId → PeerId → Option (List StorageId) → List StorageId → WireMessage
  remote_heads_changed : PeerId → PeerId → DocumentId → Map StorageId HeadsInfo → WireMessage

-- `WireMessageBuilder { sender_id, target_id, document_id }.from_sync_message(msg)`
unfoldable pub from_sync_message : PeerId → PeerId → DocumentId → SyncMessage → WireMessage
from_sync_message sender_id target_id document_id (SyncMessage.request bytes) =
    WireMessage.request document_id sender_id target_id bytes
from_sync_message sender_id target_id document_id (SyncMessage.sync bytes) =
    WireMessage.sync document_id sender_id target_id bytes
from_sync_message sender_id target_id document_id SyncMessage.doc_unavailable =
    WireMessage.doc_unavailable sender_id target_id document_id
