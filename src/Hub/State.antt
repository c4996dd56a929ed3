-- ===== src/Hub/State.antt =====
-- The state of the hub and the operations on its connections and actors:
-- samod-core/src/actors/hub/state.rs. The process-wide counters behind `ConnectionId::new()` and
-- the like are part of the state. A loop over a `HashMap` goes over its keys and looks each of
-- them up; code that may panic returns an `Option`, `none` for the panic.
pub mod Subscriptions
pub mod Documents
pub mod Dialing
pub mod Input
pub mod Event
pub mod Peers
pub mod Totality
pub mod Frame
pub mod Registry
pub mod Upkeep
pub mod Runs
pub mod Shutdown
pub mod Delivery
pub mod Open
pub mod Reach
mod Tests
use Prim.Native.String.{◌++◌ as concat}
use mathlib.Core.Option
use samod.Prelude.{
  ℕ, ◌+◌, ◌%◌, ◌^◌, String, Bool, true, false, not, Option, none, some, List, [], ◌∷◌, ◌++◌, map,
  nat_eq, if◌then◌else◌,
}
use samod.Prelude.Lists.{filter}
use samod.Prelude.Map.{Map, keys, values, get, insert, remove, contains_key}
use samod.Prelude.Panic.{◌>>=◌, for_each}
use samod.Prelude.Show.{show_u32}
use samod.Network.{
  ConnectionId, DialerId, ListenerId, DocumentActorId, DocumentId, PeerId, StorageId, PeerMetadata,
  PeerDocState, empty_state, ConnectionInfo, ConnectionOwner, dialer, listener,
}
use samod.Messages.{DocSearchPhase, ready, HubToDocMsg, connection_closed}
use samod.Dialer.{
  DialerState, DialerStatus, need_transport, transport_pending, connected, waiting_to_retry, failed,
}
use samod.Ephemera.{EphemeralSession}
use samod.Hub.Results.{
  HubResults, disconnect, emit_disconnect_event, emit_io_action, send_to_doc_actor,
}
use samod.Hub.Connection.{
  Connection, EstablishedConnection, established, remote_peer_id, established_connection,
  closed_reason, is_closed, add_document, update_peer_state, pop_new_info,
}
use samod.Hub.Listener.{ListenerState}
use samod.Hub.Pending.{PendingCommands, resolve_pending_create}
use samod.Hub.Pending
use samod.Hub.Searches.{ActorInfo, new_with_id, Searches}
use samod.Hub.Searches

pub data RunState : Type 0 where
  running stopping stopped : RunState

-- The next values of `LAST_CONNECTION_ID`, `LAST_DIALER_ID`, `LAST_LISTENER_ID` and
-- `LAST_DOCUMENT_ACTOR_ID`, atomic `u32`s.
pub record Counters : Type 0 where
  pub connection : ℕ
  pub dialer : ℕ
  pub listener : ℕ
  pub actor : ℕ

-- `fetch_add(1)` leaves this behind.
abbrev pub bump : ℕ → ℕ
bump n = (n + 1) % 2 ^ 32

pub record State : Type 0 where
  pub storage_id : StorageId
  pub peer_id : PeerId
  pub actors : Map DocumentActorId ActorInfo
  pub connections : Map ConnectionId Connection
  pub document_to_actor : Map DocumentId DocumentActorId
  pub pending_commands : PendingCommands
  pub ephemeral_session : EphemeralSession
  pub run_state : RunState
  pub dialers : Map DialerId DialerState
  pub listeners : Map ListenerId ListenerState
  pub searches : Searches
  pub counters : Counters

-- The hub's state and the results that the event has gathered so far.
abbrev pub Turn : Type 0 → Type 0
Turn A = State × HubResults A

abbrev pub new : StorageId → PeerId → EphemeralSession → Counters → State
new storage_id peer_id ephemeral_session counters = record {
  storage_id = storage_id;
  peer_id = peer_id;
  actors = [];
  connections = [];
  document_to_actor = [];
  pending_commands = Pending.new;
  ephemeral_session = ephemeral_session;
  run_state = running;
  dialers = [];
  listeners = [];
  searches = Searches.new;
  counters = counters;
}

abbrev awaits_handshake : Option Connection → Bool
awaits_handshake none = false
awaits_handshake (some conn) = elim (remote_peer_id conn) [ none ↦ true | some p ↦ false ]

abbrev is_pending : Map ConnectionId Connection → DialerStatus → Bool
is_pending conns (connected connection_id) = awaits_handshake (get connection_id conns)
is_pending conns need_transport = true
is_pending conns transport_pending = true
is_pending conns (waiting_to_retry _) = false
is_pending conns failed = false

unfoldable pub pending_dialer_urls : State → List String
pending_dialer_urls s =
    map (λ (d : DialerState). d.url)
      (filter (λ (d : DialerState). is_pending s.connections d.status) (values s.dialers))

abbrev pub add_connection : ConnectionId → Connection → State → State
add_connection connection_id conn s = record s {
  connections = insert connection_id conn s.connections;
}

abbrev removal_message : ConnectionOwner → String
removal_message (dialer id) =
    concat "Dialer DialerId(" (concat (show_u32 id) ") connection removed")
removal_message (listener id) =
    concat "Listener ListenerId(" (concat (show_u32 id) ") connection removed")

abbrev reason_or : Option String → String → String
reason_or none msg = msg
reason_or (some reason) msg = reason

module _ {A : Type 0} where
  -- `notify_doc_actors_of_removed_connection` with the actors of the loop.
  abbrev pub tell_actors : List DocumentActorId → HubToDocMsg → HubResults A → HubResults A
  tell_actors [] msg out = out
  tell_actors (actor_id ∷ rest) msg out = tell_actors rest msg (send_to_doc_actor out actor_id msg)

  abbrev emit_removal : Connection → ConnectionId → HubResults A → HubResults A
  emit_removal conn connection_id out =
      emit_io_action
        (emit_disconnect_event out connection_id conn.owner
          (reason_or (closed_reason conn) (removal_message conn.owner)))
        (disconnect connection_id)

  -- The connection that was removed, if there was one.
  unfoldable pub remove_connection : Bool → ConnectionId → Turn A → Turn A × Option Connection
  unfolding show_u32
  remove_connection notify_doc_actors connection_id (s, out) =
      elim (get connection_id s.connections) [
        | none ↦ ((s, out), none)
        | some conn ↦ (
          (
            record s { connections = remove connection_id s.connections },
            (let out' = emit_removal conn connection_id out in
                if notify_doc_actors
                then tell_actors (map (λ (a : ActorInfo). a.actor_id) (values s.actors))
                    (connection_closed connection_id) out'
                else out'),
          ),
          some conn,
        )
      ]

unfoldable pub add_document_to_connection :
    DocumentId → ConnectionId → Map ConnectionId Connection → Option (Map ConnectionId Connection)
add_document_to_connection document_id connection_id conns = elim (get connection_id conns) [
  | none ↦ some conns
  | some conn ↦
      Option.map (λ conn'. insert connection_id conn' conns) (add_document conn document_id)
]

abbrev with_peer : ConnectionId → Option PeerId → Map ConnectionId PeerId → Map ConnectionId PeerId
with_peer id none rest = rest
with_peer id (some p) rest = (id, p) ∷ rest

abbrev peer_at : Option Connection → Option PeerId
peer_at none = none
peer_at (some conn) = remote_peer_id conn

unfoldable pub peers_among :
    List ConnectionId → Map ConnectionId Connection → Map ConnectionId PeerId
peers_among [] conns = []
peers_among (id ∷ rest) conns = with_peer id (peer_at (get id conns)) (peers_among rest conns)

abbrev pub established_peers : State → Map ConnectionId PeerId
established_peers s = peers_among (keys s.connections) s.connections

-- `established_connection(conn_id)`
abbrev established_with : Connection → Option PeerId → Option (Connection × PeerId)
established_with conn none = none
established_with conn (some p) = some (conn, p)

abbrev pub find_established : State → ConnectionId → Option (Connection × PeerId)
find_established s conn_id = elim (get conn_id s.connections) [
  | none ↦ none
  | some conn ↦ established_with conn (remote_peer_id conn)
]

unfoldable pub add_document_actor : DocumentActorId → DocumentId → State → State
add_document_actor actor_id document_id s = record s {
  actors = insert actor_id (new_with_id actor_id document_id) s.actors;
  document_to_actor = insert document_id actor_id s.document_to_actor;
}

unfoldable pub find_actor_for_document : DocumentId → State → Option ActorInfo
find_actor_for_document document_id s = elim (get document_id s.document_to_actor) [
  | none ↦ none
  | some actor_id ↦ get actor_id s.actors
]

abbrev pub is_ready : DocSearchPhase → Bool
is_ready ready = true
is_ready _ = false

unfoldable pub update_document_search_phase : DocumentActorId → DocSearchPhase → State → State
update_document_search_phase actor_id new_phase s = elim (get actor_id s.actors) [
  | none ↦ s
  | some info ↦ record s {
    actors = insert actor_id (record info { search_phase = new_phase }) s.actors;
    pending_commands =
        if is_ready new_phase
        then resolve_pending_create actor_id info.document_id s.pending_commands
        else s.pending_commands;
  }
]

unfoldable pub update_peers :
    DocumentId
    → Map ConnectionId PeerDocState
    → Map ConnectionId Connection
    → Map ConnectionId Connection
update_peers document_id [] conns = conns
update_peers document_id ((id, new_state) ∷ rest) conns = elim (get id conns) [
  | none ↦ update_peers document_id rest conns
  | some conn ↦
      update_peers document_id rest (insert id (update_peer_state conn document_id new_state) conns)
]

unfoldable pub update_peer_states : DocumentActorId → Map ConnectionId PeerDocState → State → State
update_peer_states actor new_states s = elim (get actor s.actors) [
  | none ↦ s
  | some info ↦ record s { connections = update_peers info.document_id new_states s.connections }
]

abbrev closed_at : Option Connection → Bool
closed_at none = false
closed_at (some conn) = is_closed conn

abbrev pub closed_connections : State → List ConnectionId
closed_connections s = filter (λ id. closed_at (get id s.connections)) (keys s.connections)

abbrev pub get_local_metadata : State → PeerMetadata
get_local_metadata s = record { is_ephemeral = false; storage_id = some s.storage_id }
