-- ===== src/Document/Actor.antt =====
-- The actor of a document: samod-core/src/actors/document/document_actor.rs, with actor_input.rs,
-- errors.rs and phase.rs. A turn is the actor and the result under construction.
pub mod Sync
pub mod Step
pub mod Input
pub mod Frame
pub mod Keep
pub mod Upkeep
pub mod Access
pub mod Disclosure
pub mod Process
pub mod Silence
pub mod Stop
pub mod Panics
pub mod Calls
pub mod Checks
pub mod Asking
use samod.Prelude.{ℕ, String, Bool, true, false, Option, none, some, List, [], ◌∷◌, nat_eq}
use samod.Prelude.Lists.{contains}
use samod.Prelude.Map.{Map, get, insert, remove}
use samod.Network.{
  ConnectionId, DocumentActorId, DocumentId, IoTaskId, PeerId, UnixTimestamp, PeerDocState,
}
use samod.Share.{ShareConfig}
use samod.Messages.{DocMessage, DocSearchPhase, HubToDocMsg}
use samod.Hub.State.{RunState}
use samod.Document.Io.{IoResult, DocumentIoResult}
use samod.Document.Library.{Automerge}
use samod.Document.Results.{DocActorResult}
use samod.Document.OnDisk.{OnDiskState}
use samod.Document.Load.{Load}
use samod.Document.Peer.{PeerDocConnection}
use samod.Document.Request.{Request}
use samod.Document.Phases.{Loading}

pub data Phase : Type 0 where
  loading : Loading → Phase
  requesting : Request → Phase
  ready : Phase

pub record DocumentActor (am : Automerge) : Type 0 where
  pub document_id : DocumentId
  pub id : DocumentActorId
  pub local_peer_id : PeerId
  pub load_state : Load
  pub peer_connections : Map ConnectionId (PeerDocConnection am)
  pub on_disk_state : OnDiskState
  pub check_policy_tasks : Map IoTaskId ConnectionId
  pub phase : Phase
  pub run_state : RunState
  pub doc : am.Doc
  pub last_status_update : Option DocSearchPhase

pub data DocumentError : Type 0 where
  document_not_ready : DocumentError
  invalid_state : String → DocumentError

pub data ActorInput : Type 0 where
  terminate : ActorInput
  update_share_policy : PeerId → ShareConfig → ActorInput
  handle_doc_message : ConnectionId → DocMessage → UnixTimestamp → ActorInput
  new_connection : ConnectionId → PeerId → ActorInput
  connection_closed : ConnectionId → ActorInput
  io_complete : IoResult DocumentIoResult → ActorInput
  tick : ActorInput

-- `From<HubToDocMsgPayload> for ActorInput`
abbrev pub from_hub : HubToDocMsg → ActorInput
from_hub HubToDocMsg.terminate = terminate
from_hub (HubToDocMsg.update_share_policy peer_id config) = update_share_policy peer_id config
from_hub (HubToDocMsg.handle_doc_message connection_id message received_at) =
    handle_doc_message connection_id message received_at
from_hub (HubToDocMsg.new_connection connection_id peer_id) = new_connection connection_id peer_id
from_hub (HubToDocMsg.connection_closed connection_id) = connection_closed connection_id

abbrev pub Turn : Automerge → Type 0
Turn am = DocumentActor am × DocActorResult

-- The tasks of a map that are not for one of these connections.
abbrev pub retain_tasks : List ConnectionId → Map IoTaskId ConnectionId → Map IoTaskId ConnectionId
retain_tasks gone [] = []
retain_tasks gone ((task, conn) ∷ tasks) = elim (contains gone conn) [
  | true ↦ retain_tasks gone tasks
  | false ↦ (task, conn) ∷ retain_tasks gone tasks
]

abbrev pub in_request : (Request → Request) → Phase → Phase
in_request f (requesting request) = requesting (f request)
in_request f phase = phase

module _ {am : Automerge} where
  abbrev pub is_document_ready : DocumentActor am → Bool
  is_document_ready a = elim a.phase [ ready ↦ true | _ ↦ false ]

  abbrev pub is_stopped : DocumentActor am → Bool
  is_stopped a = elim a.run_state [ RunState.stopped ↦ true | _ ↦ false ]

  abbrev states_of : Map ConnectionId (PeerDocConnection am) → Map ConnectionId PeerDocState
  states_of [] = []
  states_of ((id, c) ∷ peers) = (id, c.state) ∷ states_of peers

  abbrev pub peers : DocumentActor am → Map ConnectionId PeerDocState
  peers a = states_of a.peer_connections

  abbrev pub conn_peer_id : ConnectionId → DocumentActor am → Option PeerId
  conn_peer_id conn_id a = elim (get conn_id a.peer_connections) [
    | none ↦ none
    | some c ↦ some c.peer_id
  ]

  abbrev pub store : ConnectionId → PeerDocConnection am → DocumentActor am → DocumentActor am
  store id c a = record a { peer_connections = insert id c a.peer_connections }
