-- ===== src/Hub/Results.antt =====
-- What the hub hands back to its caller: samod-core/src/actors/hub/hub_results.rs, with
-- hub/io/hub_io_action.rs, hub/command/command_result.rs and document/spawn_args.rs.
-- A send carries the message whose encoding goes out. Task identifiers are left out: the hub does
-- nothing when a send or a disconnect completes.
use samod.Prelude.{ℕ, String, Bool, Option, List, [], ◌∷◌, ◌++◌, false}
use samod.Prelude.Map.{Map}
use samod.Network.{
  ConnectionId, DialerId, ListenerId, DocumentActorId, DocumentId, CommandId, PeerId,
  ConnectionOwner, ConnectionEvent, connection_failed,
}
use samod.Messages.{DocMessage, DocSearch, HubToDocMsg, WireMessage}

pub data HubIoAction : Type 0 where
  send_to : ConnectionId → WireMessage → HubIoAction
  disconnect : ConnectionId → HubIoAction

pub data CommandResult : Type 0 where
  create_connection : ConnectionId → CommandResult
  receive : ConnectionId → Option String → CommandResult
  actor_ready : CommandResult
  create_document : DocumentActorId → DocumentId → CommandResult
  search_for_doc : DocumentActorId → DocSearch → CommandResult
  add_dialer : DialerId → CommandResult
  add_listener : ListenerId → CommandResult

pub record SpawnArgs (Automerge : Type 0) : Type 0 where
  pub local_peer_id : PeerId
  pub actor_id : DocumentActorId
  pub document_id : DocumentId
  pub initial_content : Option Automerge
  pub initial_connections : Map ConnectionId (PeerId × Option DocMessage)

pub record DialRequest : Type 0 where
  pub dialer_id : DialerId
  pub url : String

pub data DialerEvent : Type 0 where
  max_retries_reached : DialerId → String → DialerEvent

pub record HubResults (Automerge : Type 0) : Type 0 where
  pub new_tasks : List HubIoAction
  pub completed_commands : Map CommandId CommandResult
  pub spawn_actors : List (SpawnArgs Automerge)
  pub actor_messages : List (DocumentActorId × HubToDocMsg)
  pub connection_events : List ConnectionEvent
  pub dial_requests : List DialRequest
  pub dialer_events : List DialerEvent
  pub stopped : Bool
  pub connections_count : ℕ
  pub documents_count : ℕ
  pub search_state_updates : List (DocumentId × DocSearch)

module _ {A : Type 0} where
  abbrev pub emit_io_action : HubResults A → HubIoAction → HubResults A
  emit_io_action out action = record out { new_tasks = out.new_tasks ++ action ∷ [] }

  abbrev pub send : HubResults A → ConnectionId → WireMessage → HubResults A
  send out connection_id msg = emit_io_action out (send_to connection_id msg)

  abbrev pub emit_connection_event : HubResults A → ConnectionEvent → HubResults A
  emit_connection_event out event = record out {
    connection_events = out.connection_events ++ event ∷ [];
  }

  abbrev pub emit_disconnect_event :
      HubResults A → ConnectionId → ConnectionOwner → String → HubResults A
  emit_disconnect_event out connection_id owner error =
      emit_connection_event out (connection_failed connection_id owner error)

  abbrev pub send_to_doc_actor : HubResults A → DocumentActorId → HubToDocMsg → HubResults A
  send_to_doc_actor out actor_id msg = record out {
    actor_messages = out.actor_messages ++ (actor_id, msg) ∷ [];
  }

  abbrev pub emit_spawn_actor : HubResults A → SpawnArgs A → HubResults A
  emit_spawn_actor out args = record out { spawn_actors = out.spawn_actors ++ args ∷ [] }

  abbrev pub emit_dial_request : HubResults A → DialRequest → HubResults A
  emit_dial_request out request = record out { dial_requests = out.dial_requests ++ request ∷ [] }

  abbrev pub emit_connector_event : HubResults A → DialerEvent → HubResults A
  emit_connector_event out event = record out { dialer_events = out.dialer_events ++ event ∷ [] }

-- `HubResults::default()`
abbrev pub no_results : (A : Type 0) → HubResults A
no_results A = record {
  new_tasks = [];
  completed_commands = [];
  spawn_actors = [];
  actor_messages = [];
  connection_events = [];
  dial_requests = [];
  dialer_events = [];
  stopped = false;
  connections_count = 0;
  documents_count = 0;
  search_state_updates = [];
}
