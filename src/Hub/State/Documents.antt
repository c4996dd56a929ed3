-- ===== src/Hub/State/Documents.antt =====
-- Documents in the hub: the handlers of samod-core/src/actors/hub/state.rs that spawn actors,
-- hand them messages and send what they broadcast. The outcome of decoding a message and the
-- identifier drawn for a new document are arguments.
use Prim.Native.String.{◌++◌ as concat}
use samod.Prelude.{
  String, not, Option, none, some, List, [], ◌∷◌, ◌==◌, string_eq, nat_eq, if◌then◌else◌,
}
use samod.Prelude.Map.{Map, keys, get, insert}
use samod.Prelude.Panic.{◌>>=◌, for_each}
use samod.Prelude.Result.{Result, ok, err}
use samod.Network.{
  ConnectionId, DocumentActorId, DocumentId, CommandId, PeerId, UnixTimestamp, handshake_completed,
}
use samod.Messages.{
  DocMessage, sync_msg, ephemeral_msg, Broadcast, fresh, gossip, EphemeralMessage, DocSearchPhase,
  loading, ready, handle_doc_message, WireMessage,
}
use samod.Ephemera.{next_message_session_details, receive_message, OutgoingSessionDetails}
use samod.Hub.Results.{
  HubResults, CommandResult, receive, search_for_doc, SpawnArgs, emit_spawn_actor,
  send_to_doc_actor, emit_connection_event,
}
use samod.Hub.Results
use samod.Hub.Connection.{
  Connection, ReceiveEvent, handshake_complete, sync_message, ephemeral_message, remote_peer_id,
  close,
}
use samod.Hub.Connection.Receive.{receive_msg}
use samod.Hub.Searches.{ActorInfo, add_search}
use samod.Hub.Pending.{add_pending_create_command}
use samod.Hub.State.{
  State, Turn, bump, established_peers, add_document_to_connection, add_document_actor,
  find_actor_for_document, pending_dialer_urls, get_local_metadata,
}
use samod.Hub.State.Dialing.{reset_dialer_backoff_for_connection}

abbrev pub without_message : Map ConnectionId PeerId → Map ConnectionId (PeerId × Option DocMessage)
without_message [] = []
without_message ((id, p) ∷ rest) = (id, (p, none)) ∷ without_message rest

abbrev pub with_first :
    ConnectionId
    → DocMessage
    → Option (PeerId × Option DocMessage)
    → Map ConnectionId (PeerId × Option DocMessage)
    → Map ConnectionId (PeerId × Option DocMessage)
with_first id msg none m = m
with_first id msg (some (p, _)) m = insert id (p, some msg) m

-- `if let Some((_, sync_msg)) = initial_connections.get_mut(&conn_id) { *sync_msg = Some(msg) }`
abbrev pub attach :
    Option (ConnectionId × DocMessage)
    → Map ConnectionId (PeerId × Option DocMessage)
    → Map ConnectionId (PeerId × Option DocMessage)
attach none m = m
attach (some (id, msg)) m = with_first id msg (get id m) m

abbrev pub phase_or_loading : Option ActorInfo → DocSearchPhase
phase_or_loading none = loading
phase_or_loading (some info) = info.search_phase

-- The message that a broadcast sends to one peer.
abbrev pub broadcast_message :
    State → DocumentId → OutgoingSessionDetails → Broadcast → PeerId → WireMessage
broadcast_message s doc_id details (fresh msg) their_peer_id =
    WireMessage.ephemeral s.peer_id their_peer_id details.counter details.session_id doc_id msg
broadcast_message s doc_id details (gossip m) their_peer_id =
    WireMessage.ephemeral m.sender_id their_peer_id m.count m.session_id doc_id m.content

module _ {A : Type 0} where
  -- `spawn_actor` once the document is added to the connections, which makes them `conns`.
  abbrev pub spawned :
      DocumentId
      → Option A
      → Option (ConnectionId × DocMessage)
      → Map ConnectionId PeerId
      → Map ConnectionId Connection
      → Turn A
      → Turn A × DocumentActorId
  spawned document_id initial_doc from_sync_msg peers conns (s, out) = (
    (
      record s { connections = conns },
      emit_spawn_actor out (record {
        local_peer_id = s.peer_id;
        actor_id = s.counters.actor;
        document_id = document_id;
        initial_content = initial_doc;
        initial_connections = attach from_sync_msg (without_message peers);
      }),
    ),
    s.counters.actor,
  )

  abbrev pub next_actor : Turn A × DocumentActorId → Turn A × DocumentActorId
  next_actor ((s, out), actor_id) =
      ((record s { counters = record s.counters { actor = bump s.counters.actor } }, out), actor_id)

  unfoldable pub spawn_actor :
      DocumentId
      → Option A
      → Option (ConnectionId × DocMessage)
      → Turn A
      → Option (Turn A × DocumentActorId)
  spawn_actor document_id initial_doc from_sync_msg (s, out) =
      let s' = add_document_actor s.counters.actor document_id s in
      let peers = established_peers s' in
      for_each (add_document_to_connection document_id) (keys peers) s'.connections >>= λ conns.
      some (next_actor (spawned document_id initial_doc from_sync_msg peers conns (s', out)))

  unfoldable pub deliver :
      UnixTimestamp → ConnectionId → PeerId → DocumentId → DocMessage → Turn A → Option (Turn A)
  unfolding spawn_actor
  deliver now connection_id target_id doc_id msg (s, out) =
      if not (target_id == s.peer_id)
      then some (s, out)
      else elim (find_actor_for_document doc_id s) [
        | some existing ↦
            some (
              s,
              send_to_doc_actor out existing.actor_id (handle_doc_message connection_id msg now),
            )
        | none ↦ spawn_actor doc_id none (some (connection_id, msg)) (s, out) >>= λ spawned.
            some spawned.0
      ]

  unfoldable pub handle_create_document : DocumentId → CommandId → A → Turn A → Option (Turn A)
  handle_create_document document_id command_id init_doc turn =
      spawn_actor document_id (some init_doc) none turn >>= λ ((s, out), actor_id). some (
        record s {
          searches = add_search actor_id ready s.searches;
          pending_commands = add_pending_create_command actor_id command_id s.pending_commands;
        },
        out,
      )

  abbrev answer_search : Turn A → DocumentActorId → Turn A × CommandResult
  answer_search (s, out) actor_id = (
    (s, out),
    search_for_doc actor_id (record {
      phase = phase_or_loading (get actor_id s.actors);
      pending_connections = pending_dialer_urls s;
    }),
  )

  unfoldable pub handle_search_for_doc : DocumentId → Turn A → Option (Turn A × CommandResult)
  handle_search_for_doc document_id (s, out) = elim (find_actor_for_document document_id s) [
    | some existing ↦ some (answer_search (s, out) existing.actor_id)
    | none ↦ spawn_actor document_id none none (s, out) >>= λ spawned.
        some (answer_search spawned.0 spawned.1)
  ]

  abbrev pub receive_ephemeral :
      UnixTimestamp
      → ConnectionId
      → PeerId
      → DocumentId
      → EphemeralMessage
      → Turn A
      → Option (Turn A)
  receive_ephemeral now connection_id target_id doc_id msg (s, out) =
      let (session, passed) = receive_message s.ephemeral_session msg in
      let s' = record s { ephemeral_session = session } in
      elim passed [
        | none ↦ some (s', out)
        | some m ↦ deliver now connection_id target_id doc_id (ephemeral_msg m) (s', out)
      ]

  -- The body of the loop over what `receive_msg` returns; `expect` may panic.
  unfoldable pub handle_receive_event :
      UnixTimestamp → ConnectionId → ReceiveEvent → Turn A → Option (Turn A)
  unfolding deliver
  handle_receive_event now connection_id (handshake_complete remote) (s, out) =
      let s' = reset_dialer_backoff_for_connection connection_id s in
      get connection_id s'.connections >>= λ conn. some (
        s',
        emit_connection_event out (
            handshake_completed connection_id conn.owner (record {
              peer_id = remote;
              metadata = some (get_local_metadata s');
              protocol_version = "1";
            })),
      )
  handle_receive_event now connection_id (sync_message doc_id sender_id target_id msg) turn =
      deliver now connection_id target_id doc_id (sync_msg msg) turn
  handle_receive_event now connection_id
        (ephemeral_message doc_id sender_id target_id count session_id bytes) turn =
      receive_ephemeral now connection_id target_id doc_id
        (record { sender_id = sender_id; session_id = session_id; count = count; content = bytes })
        turn

  abbrev pub handle_decoded :
      UnixTimestamp
      → ConnectionId
      → Connection
      → Result String WireMessage
      → Turn A
      → Option (Turn A × CommandResult)
  handle_decoded now connection_id conn (err e) (s, out) = some (
    (
      record s {
        connections =
            insert connection_id (close conn (concat "Message decode error: " e)) s.connections;
      },
      out,
    ),
    receive connection_id (some (concat "Decode error: " e)),
  )
  handle_decoded now connection_id conn (ok msg) (s, out) =
      let (conn', out', events) = receive_msg conn out now msg in
      for_each (handle_receive_event now connection_id) events
        (record s { connections = insert connection_id conn' s.connections }, out')
      >>= λ turn'. some (turn', receive connection_id none)

  unfoldable pub handle_receive :
      UnixTimestamp
      → ConnectionId
      → Result String WireMessage
      → Turn A
      → Option (Turn A × CommandResult)
  unfolding handle_receive_event
  handle_receive now connection_id decoded (s, out) = elim (get connection_id s.connections) [
    | none ↦ some ((s, out), receive connection_id (some "Connection not found"))
    | some conn ↦ handle_decoded now connection_id conn decoded (s, out)
  ]

  abbrev send_to_peer :
      State → ConnectionId → Option PeerId → (PeerId → WireMessage) → HubResults A → HubResults A
  send_to_peer s conn_id none msg out = out
  send_to_peer s conn_id (some p) msg out = Results.send out conn_id (msg p)

  abbrev pub broadcast_to :
      State → (PeerId → WireMessage) → List ConnectionId → HubResults A → HubResults A
  broadcast_to s msg [] out = out
  broadcast_to s msg (conn_id ∷ rest) out = elim (get conn_id s.connections) [
    | none ↦ broadcast_to s msg rest out
    | some conn ↦ broadcast_to s msg rest (send_to_peer s conn.id (remote_peer_id conn) msg out)
  ]

  unfoldable pub broadcast : DocumentActorId → List ConnectionId → Broadcast → Turn A → Turn A
  broadcast from_actor to_connections msg (s, out) = elim (get from_actor s.actors) [
    | none ↦ (s, out)
    | some info ↦
        (let (session, details) = next_message_session_details s.ephemeral_session in
          let s' = record s { ephemeral_session = session } in
          (
            s',
            broadcast_to s' (broadcast_message s' info.document_id details msg) to_connections out,
          ))
  ]
