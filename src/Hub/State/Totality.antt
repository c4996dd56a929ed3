-- ===== src/Hub/State/Totality.antt =====
-- The hub never panics: the `unwrap`s and `expect`s of samod-core/src/actors/hub/state.rs, and the
-- panic of `Connection::add_document`, are never reached.
use samod.Prelude.{
  String, ◌≡◌, refl, ap, ◌∙◌, inl, inr, Option, none, some, List, [], ◌∷◌, arith, nat_eq, ◌==◌,
  string_eq, Bool-cases, Option-cases,
}
use samod.Prelude.Map.{keys, get, insert, get-insert, get-insert_same}
use samod.Prelude.Panic.{◌>>=◌, for_each}
use samod.Prelude.Result.{Result, ok, err}
use samod.Network.{
  ConnectionId, DocumentActorId, DocumentId, CommandId, PeerId, UnixTimestamp, ConnectionOwner,
  dialer, listener,
}
use samod.Messages.{DocMessage, sync_msg, ephemeral_msg, WireMessage, EphemeralMessage}
use samod.Ephemera.{receive_message}
use samod.Hub.Results.{HubResults}
use samod.Hub.Connection.{
  Connection, ReceiveEvent, handshake_complete, sync_message, ephemeral_message, remote_peer_id,
}
use samod.Hub.Connection.Receive.{receive_msg}
use samod.Hub.State.{State, Turn, add_document_actor, established_peers, find_actor_for_document}
use samod.Hub.State.Dialing.{
  reset_dialer_backoff_for_connection, reset_dialer_backoff_for_owner, create_connection_for,
  handshaking_for, adopted,
}
use samod.Hub.State.Documents.{
  spawn_actor, spawned, next_actor, receive_ephemeral, deliver, handle_create_document,
  handle_search_for_doc, handle_receive_event, handle_receive, handle_decoded,
}
use samod.Hub.State.Input.{Command, HubInput, Rng, handle_command, handle_input, is_running}
use samod.Hub.State.Event.{
  HubEvent, io_complete, input, handle_event, handle_payload, drop_closed, connect_documents,
  is_stopped,
}
use samod.Hub.State.Peers.{
  tag, tag_at, SamePeers, SamePeers-trans, add_to_all-Talks, peers_among-Talks,
  ensure_connections-total,
}

abbrev Total : {B : Type 0} → Option B → Type 0
Total {B} o = (b : B) × (o ≡ some b)

abbrev Goes : {A : Type 0} → State → Option (Turn A) → Type 0
Goes {A} s o = (turn : Turn A) × (o ≡ some turn) × SamePeers s.connections turn.0.connections

abbrev Present : ConnectionId → State → Type 0
Present id s = (conn : Connection) × (get id s.connections ≡ some conn)

tag-Present :
    (id : ConnectionId) (o : Option Connection) (t : Option PeerId)
    → tag o ≡ some t
    → (conn : Connection) × (o ≡ some conn)
tag-Present id none t h = ground arith
tag-Present id (some conn) t h = (conn, refl)

reset_owner-connections :
    (owner : ConnectionOwner) (s : State)
    → (reset_dialer_backoff_for_owner owner s).connections ≡ s.connections
unfolding reset_dialer_backoff_for_owner
reset_owner-connections (listener id) s = refl
reset_owner-connections (dialer id) s = elim (Option-cases (get id s.dialers)) [
  | inl e ↦ rw (reset_dialer_backoff_for_owner, e) refl
  | inr (d, e) ↦ rw (reset_dialer_backoff_for_owner, e) refl
]

SamePeers-Present :
    (id : ConnectionId) (s s' : State)
    → SamePeers s.connections s'.connections
    → Present id s
    → Present id s'
SamePeers-Present id s s' same (conn, e) =
    tag-Present id (get id s'.connections) (remote_peer_id conn) (same id ∙ ap tag e)

reset-connections :
    (id : ConnectionId) (s : State)
    → (reset_dialer_backoff_for_connection id s).connections ≡ s.connections
unfolding reset_dialer_backoff_for_connection reset_dialer_backoff_for_owner
reset-connections id s = elim (Option-cases (get id s.connections)) [
  | inl e ↦ rw (reset_dialer_backoff_for_connection, e) refl
  | inr (conn, e) ↦
      rw (reset_dialer_backoff_for_connection, e) (reset_owner-connections conn.owner s)
]

module _ {A : Type 0} where
  spawn_actor-goes :
      (d : DocumentId) (doc : Option A) (msg : Option (ConnectionId × DocMessage)) (s : State)
      (out : HubResults A)
      → (r : Turn A × DocumentActorId) × (spawn_actor d doc msg (s, out) ≡ some r)
        × SamePeers s.connections r.0.0.connections
  unfolding spawn_actor add_document_actor
  spawn_actor-goes d doc msg s out =
      let s' = add_document_actor s.counters.actor d s in
      let peers = established_peers s' in
      let (conns, e, same) =
        add_to_all-Talks d (keys peers) s.connections
          (peers_among-Talks (keys s.connections) s.connections) in
      (next_actor (spawned d doc msg peers conns (s', out)), rw e refl, same)

  deliver_new-Goes :
      (now : UnixTimestamp) (id : ConnectionId) (target : PeerId) (d : DocumentId)
      (msg : DocMessage) (s : State) (out : HubResults A)
      → Goes s (spawn_actor {A = A} d none (some (id, msg)) (s, out) >>= λ r. some r.0)
  deliver_new-Goes now id target d msg s out =
      let (r, e, same) = spawn_actor-goes d none (some (id, msg)) s out in (r.0, rw e refl, same)

  deliver-Goes :
      (now : UnixTimestamp) (id : ConnectionId) (target : PeerId) (d : DocumentId)
      (msg : DocMessage) (s : State) (out : HubResults A)
      → Goes s (deliver now id target d msg (s, out))
  unfolding deliver
  deliver-Goes now id target d msg s out = elim (Bool-cases (target == s.peer_id)) [
    | inl e ↦ elim (Option-cases (find_actor_for_document d s)) [
      | inl f ↦ rw (e, f) (deliver_new-Goes now id target d msg s out)
      | inr (info, f) ↦ rw (e, f) (_, refl, λ j. refl)
    ]
    | inr e ↦ rw e (_, refl, λ j. refl)
  ]

  handle_create_document-Goes :
      (d : DocumentId) (command_id : CommandId) (doc : A) (s : State) (out : HubResults A)
      → Goes s (handle_create_document d command_id doc (s, out))
  unfolding handle_create_document
  handle_create_document-Goes d command_id doc s out =
      let (r, e, same) = spawn_actor-goes d (some doc) none s out in rw e (_, refl, same)

  handshake-Goes :
      (now : UnixTimestamp) (id : ConnectionId) (p : PeerId) (s : State) (out : HubResults A)
      → Present id s
      → Goes s (handle_receive_event now id (handshake_complete p) (s, out))
  unfolding handle_receive_event
  handshake-Goes now id p s out (conn, e) =
      rw (ap (get id) (reset-connections id s) ∙ e)
        (_, refl, (λ j. ap (tag_at j) (reset-connections id s)))

  receive_ephemeral-Goes :
      (now : UnixTimestamp) (id : ConnectionId) (target : PeerId) (d : DocumentId)
      (msg : EphemeralMessage) (s : State) (out : HubResults A)
      → Goes s (receive_ephemeral now id target d msg (s, out))
  receive_ephemeral-Goes now id target d msg s out =
      let (session, passed) = receive_message s.ephemeral_session msg in
      let s' = record s { ephemeral_session = session } in
      elim (Option-cases passed) [
        | inl e ↦ rw (receive_ephemeral, e) ((s', out), refl, λ j. refl)
        | inr (m, e) ↦
            rw (receive_ephemeral, e) (deliver-Goes now id target d (ephemeral_msg m) s' out)
      ]

  handle_receive_event-Goes :
      (now : UnixTimestamp) (id : ConnectionId) (event : ReceiveEvent) (s : State)
      (out : HubResults A)
      → Present id s
      → Goes s (handle_receive_event now id event (s, out))
  unfolding handle_receive_event
  handle_receive_event-Goes now id (handshake_complete p) s out h = handshake-Goes now id p s out h
  handle_receive_event-Goes now id (sync_message d from to msg) s out h =
      deliver-Goes now id to d (sync_msg msg) s out
  handle_receive_event-Goes now id (ephemeral_message d from to count session bytes) s out h =
      receive_ephemeral-Goes now id to d
        (record { sender_id = from; session_id = session; count = count; content = bytes }) s out

  receive_events-Goes :
      (now : UnixTimestamp) (id : ConnectionId) (events : List ReceiveEvent) (s : State)
      (out : HubResults A)
      → Present id s
      → Goes s (for_each (handle_receive_event now id) events (s, out))
  receive_events-Goes now id [] s out h = ((s, out), refl, λ j. refl)
  receive_events-Goes now id (event ∷ events) s out h =
      let ((s', out'), e, same) = handle_receive_event-Goes now id event s out h in
      let (turn, e', same') =
        receive_events-Goes now id events s' out' (SamePeers-Present id s s' same h) in
      (turn, rw e e', SamePeers-trans s.connections s'.connections turn.0.connections same same')

  handle_decoded-Total :
      (now : UnixTimestamp) (id : ConnectionId) (conn : Connection)
      (decoded : Result String WireMessage) (s : State) (out : HubResults A)
      → Total (handle_decoded now id conn decoded (s, out))
  handle_decoded-Total now id conn (err e) s out = (_, refl)
  handle_decoded-Total now id conn (ok msg) s out =
      let (conn', out', events) = receive_msg conn out now msg in
      let s' = record s { connections = insert id conn' s.connections } in
      let (turn, e, same) =
        receive_events-Goes now id events s' out'
          (conn', ground (arith, get-insert id id conn' s.connections, nat_eq.same_iff id id)) in
      rw e (_, refl)

  handle_receive-Total :
      (now : UnixTimestamp) (id : ConnectionId) (decoded : Result String WireMessage) (s : State)
      (out : HubResults A)
      → Total (handle_receive now id decoded (s, out))
  unfolding handle_receive
  handle_receive-Total now id decoded s out = elim (Option-cases (get id s.connections)) [
    | inl e ↦ rw (handle_receive, e) (_, refl)
    | inr (conn, e) ↦ rw (handle_receive, e) (handle_decoded-Total now id conn decoded s out)
  ]

  handle_search_for_doc-Total :
      (d : DocumentId) (s : State) (out : HubResults A) → Total (handle_search_for_doc d (s, out))
  unfolding handle_search_for_doc
  handle_search_for_doc-Total d s out = elim (Option-cases (find_actor_for_document d s)) [
    | inl e ↦
        (let (r, f, same) = spawn_actor-goes d none none s out in
          rw (handle_search_for_doc, e, f) (_, refl))
    | inr (info, e) ↦ rw (handle_search_for_doc, e) (_, refl)
  ]

  handle_command-Total :
      (rng : Rng) (now : UnixTimestamp) (command_id : CommandId) (cmd : Command A) (s : State)
      (out : HubResults A)
      → Total (handle_command rng now command_id cmd (s, out))
  unfolding handle_command
  handle_command-Total rng now command_id (Command.receive id msg) s out =
      let (r, e) = handle_receive-Total now id msg s out in rw e (_, refl)
  handle_command-Total rng now command_id (Command.actor_is_ready d) s out = (_, refl)
  handle_command-Total rng now command_id (Command.create_document content) s out =
      let (r, e, same) = handle_create_document-Goes rng.document_id command_id content s out in
      rw e (_, refl)
  handle_command-Total rng now command_id (Command.search_for_doc d) s out =
      let (r, e) = handle_search_for_doc-Total d s out in rw e (_, refl)

  create_connection_for-Total :
      (now : UnixTimestamp) (owner : ConnectionOwner) (p : Option PeerId) (s : State)
      (out : HubResults A)
      → Total (create_connection_for now owner p (s, out))
  unfolding create_connection_for
  create_connection_for-Total now owner p s out =
      let id : ConnectionId = s.counters.connection in
      let (conn, out') = handshaking_for now owner p (s, out) in
      rw (get-insert_same id conn (adopted owner s).connections) (_, refl)

  handle_input-Total :
      (rng : Rng) (now : UnixTimestamp) (i : HubInput A) (s : State) (out : HubResults A)
      → Total (handle_input rng now i (s, out))
  unfolding handle_input
  handle_input-Total rng now (HubInput.command command_id cmd) s out =
      elim (Bool-cases (is_running s.run_state)) [
        | inl e ↦
            (let (r, f) = handle_command-Total rng now command_id cmd s out in
              rw (handle_input, e, f) (_, refl))
        | inr e ↦ rw (handle_input, e) (_, refl)
      ]
  handle_input-Total rng now (HubInput.create_dialer_connection command_id id p) s out =
      let (r, e) = create_connection_for-Total now (dialer id) p s out in rw e (_, refl)
  handle_input-Total rng now (HubInput.create_listener_connection command_id id p) s out =
      let (r, e) = create_connection_for-Total now (listener id) p s out in rw e (_, refl)
  handle_input-Total rng now _ s out = (_, refl)

  connect_documents-Total : (s : State) (out : HubResults A) → Total (connect_documents (s, out))
  unfolding connect_documents
  connect_documents-Total s out = elim (Bool-cases (is_running s.run_state)) [
    | inl e ↦
        (let (conns, todo, f, same) = ensure_connections-total s in
          rw (connect_documents, e, f) (_, refl))
    | inr e ↦ rw (connect_documents, e) (_, refl)
  ]

  handle_payload-Total :
      (rng : Rng) (now : UnixTimestamp) (event : HubEvent A) (s : State) (out : HubResults A)
      → Total (handle_payload rng now event (s, out))
  handle_payload-Total rng now io_complete s out = (_, refl)
  handle_payload-Total rng now (input i) s out = handle_input-Total rng now i s out

  -- Whatever the state and the event, the hub handles the event without a panic.
  pub handle_event-total :
      (rng : Rng) (now : UnixTimestamp) (event : HubEvent A) (s : State) (out : HubResults A)
      → (turn : Turn A) × (handle_event rng now event (s, out) ≡ some turn)
  unfolding handle_event
  handle_event-total rng now event s out = elim (Bool-cases (is_stopped s.run_state)) [
    | inl e ↦ rw (handle_event, e) (_, refl)
    | inr e ↦
        (let (turn, f) = handle_payload-Total rng now event s out in
          let ((s', out'), g) =
            connect_documents-Total (drop_closed rng now turn).0 (drop_closed rng now turn).1 in
          rw (handle_event, e, f, g) (_, refl))
  ]
