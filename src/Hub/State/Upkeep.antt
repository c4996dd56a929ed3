-- ===== src/Hub/State/Upkeep.antt =====
-- What commands do to the registry of actors and to the run state: `handle_command` of
-- samod-core/src/actors/hub/state.rs.
use samod.Prelude.{
  ℕ, ◌≤◌, String, ◌≡◌, refl, ap, inl, inr, Option, none, some, List, [], ◌∷◌, arith, nat_eq, ◌==◌,
  string_eq, Bool-cases, Option-cases,
}
use samod.Prelude.Map.{keys, get, insert}
use samod.Prelude.Panic.{for_each}
use samod.Prelude.Result.{Result, ok, err}
use samod.Network.{ConnectionId, DocumentActorId, DocumentId, CommandId, PeerId, UnixTimestamp}
use samod.Messages.{DocMessage, sync_msg, ephemeral_msg, EphemeralMessage, WireMessage}
use samod.Ephemera.{receive_message}
use samod.Hub.Results.{HubResults}
use samod.Hub.Connection.{
  Connection, ReceiveEvent, handshake_complete, sync_message, ephemeral_message,
}
use samod.Hub.Connection.Receive.{receive_msg}
use samod.Hub.State.{
  State, Turn, RunState, running, stopping, stopped, add_document_actor, find_actor_for_document,
  established_peers, add_document_to_connection,
}
use samod.Hub.State.Dialing.{reset_dialer_backoff_for_connection}
use samod.Hub.State.Documents.{
  spawn_actor, spawned, next_actor, deliver, receive_ephemeral, handle_create_document,
  handle_search_for_doc, handle_receive_event, handle_decoded, handle_receive,
}
use samod.Hub.State.Input.{Command, Rng, handle_command}
use samod.Hub.State.Frame.{reset-frame}
use samod.Hub.State.Registry.{
  Registered, Kept, Kept-refl, Kept-trans, Frame-Kept, After, After-mono, bind-After, bind-After_if,
  add_document_actor-Registered,
}

abbrev Keeps : {A : Type 0} → State → Turn A → Type 0
Keeps s turn = Kept s turn.0

-- The identifier that the generator draws for a new document has no actor yet.
abbrev pub FreshDraw : Rng → State → Type 0
FreshDraw rng s = find_actor_for_document rng.document_id s ≡ none

abbrev pub rank : RunState → ℕ
rank running = 0
rank stopping = 1
rank stopped = 2

-- What an event does: the registry stays right if the draw is fresh, and a hub never restarts.
pub record Onwards (rng : Rng) (s s' : State) : Type 0 where
  pub registered : FreshDraw rng s → Registered s → Registered s'
  pub rises : rank s.run_state ≤ rank s'.run_state

pub Kept-Onwards : (rng : Rng) (s s' : State) → Kept s s' → Onwards rng s s'
Kept-Onwards rng s s' k = record {
  registered = λ fresh h. k.registered h;
  rises = omega (arith, ap rank k.run_state);
}

pub Onwards-Kept : (rng : Rng) (a b c : State) → Onwards rng a b → Kept b c → Onwards rng a c
Onwards-Kept rng a b c o k = record {
  registered = λ fresh h. k.registered (o.registered fresh h);
  rises = omega (arith, o.rises, ap rank k.run_state);
}

then_kept :
    {A : Type 0} (s s' : State)
    → Kept s s'
    → (o : Option (Turn A)) → After (Keeps s') o
    → After (Keeps s) o
then_kept s s' k o h = After-mono (Keeps s') (Keeps s) o (λ turn k'. Kept-trans s s' turn.0 k k') h

module _ {A : Type 0} where
  pub spawn_actor-any :
      (d : DocumentId) (doc : Option A) (msg : Option (ConnectionId × DocMessage)) (s : State)
      (out : HubResults A)
      → After
          (λ (r : Turn A × DocumentActorId).
            (find_actor_for_document d s ≡ none → Registered s → Registered r.0.0)
            × (r.0.0.run_state ≡ s.run_state))
          (spawn_actor d doc msg (s, out))
  unfolding spawn_actor add_document_actor
  spawn_actor-any d doc msg s out =
      let s' = add_document_actor s.counters.actor d s in
      let peers = established_peers s' in
      bind-After
        (λ (r : Turn A × DocumentActorId).
          (find_actor_for_document d s ≡ none → Registered s → Registered r.0.0)
          × (r.0.0.run_state ≡ s.run_state))
        (for_each (add_document_to_connection d) (keys peers) s'.connections)
        (λ conns. some (next_actor (spawned d doc msg peers conns (s', out))))
        λ conns. (add_document_actor-Registered s.counters.actor d s, refl)

  spawn_actor-kept :
      (d : DocumentId) (doc : Option A) (msg : Option (ConnectionId × DocMessage)) (s : State)
      (out : HubResults A)
      → find_actor_for_document d s ≡ none
      → After (λ (r : Turn A × DocumentActorId). Kept s r.0.0) (spawn_actor d doc msg (s, out))
  spawn_actor-kept d doc msg s out free =
      After-mono _ (λ (r : Turn A × DocumentActorId). Kept s r.0.0) (spawn_actor d doc msg (s, out))
        (λ r (reg, same). record { registered = reg free; run_state = same })
        (spawn_actor-any d doc msg s out)

  deliver-kept :
      (now : UnixTimestamp) (id : ConnectionId) (target : PeerId) (d : DocumentId)
      (msg : DocMessage) (s : State) (out : HubResults A)
      → After (Keeps s) (deliver now id target d msg (s, out))
  unfolding deliver
  deliver-kept now id target d msg s out = elim (Bool-cases (target == s.peer_id)) [
    | inl e ↦ elim (Option-cases (find_actor_for_document d s)) [
      | inl f ↦
          rw (deliver, e, f)
            (bind-After_if (λ (r : Turn A × DocumentActorId). Kept s r.0.0) (Keeps s)
              (spawn_actor d none (some (id, msg)) (s, out)) (λ r. some r.0)
              (spawn_actor-kept d none (some (id, msg)) s out f) (λ r kept. kept))
      | inr (info, f) ↦ rw (deliver, e, f) (Kept-refl s)
    ]
    | inr e ↦ rw (deliver, e) (Kept-refl s)
  ]

  receive_ephemeral-kept :
      (now : UnixTimestamp) (id : ConnectionId) (target : PeerId) (d : DocumentId)
      (msg : EphemeralMessage) (s : State) (out : HubResults A)
      → After (Keeps s) (receive_ephemeral now id target d msg (s, out))
  receive_ephemeral-kept now id target d msg s out =
      let (session, passed) = receive_message s.ephemeral_session msg in
      let s' = record s { ephemeral_session = session } in
      elim (Option-cases passed) [
        | inl e ↦ rw (receive_ephemeral, e) (record { registered = λ h. h; run_state = refl })
        | inr (m, e) ↦
            rw (receive_ephemeral, e)
              (then_kept s s' (record { registered = λ h. h; run_state = refl })
                (deliver now id target d (ephemeral_msg m) (s', out))
                (deliver-kept now id target d (ephemeral_msg m) s' out))
      ]

  handle_receive_event-kept :
      (now : UnixTimestamp) (id : ConnectionId) (event : ReceiveEvent) (s : State)
      (out : HubResults A)
      → After (Keeps s) (handle_receive_event now id event (s, out))
  unfolding handle_receive_event
  handle_receive_event-kept now id (handshake_complete p) s out =
      bind-After (Keeps s) (get id (reset_dialer_backoff_for_connection id s).connections) _
        λ conn. Frame-Kept s (reset_dialer_backoff_for_connection id s) (reset-frame id s)
  handle_receive_event-kept now id (sync_message d from to msg) s out =
      deliver-kept now id to d (sync_msg msg) s out
  handle_receive_event-kept now id (ephemeral_message d from to count session bytes) s out =
      receive_ephemeral-kept now id to d
        (record { sender_id = from; session_id = session; count = count; content = bytes }) s out

  receive_events-kept :
      (now : UnixTimestamp) (id : ConnectionId) (events : List ReceiveEvent) (s : State)
      (out : HubResults A)
      → After (Keeps s) (for_each (handle_receive_event now id) events (s, out))
  receive_events-kept now id [] s out = Kept-refl s
  receive_events-kept now id (event ∷ events) s out =
      bind-After_if (Keeps s) (Keeps s) (handle_receive_event now id event (s, out))
        (for_each (handle_receive_event now id) events)
        (handle_receive_event-kept now id event s out)
        λ (s', out') k.
          then_kept s s' k (for_each (handle_receive_event now id) events (s', out'))
            (receive_events-kept now id events s' out')

  abbrev KeepsFirst : {B : Type 0} → State → Turn A × B → Type 0
  KeepsFirst s r = Kept s r.0.0

  handle_decoded-kept :
      (now : UnixTimestamp) (id : ConnectionId) (conn : Connection)
      (decoded : Result String WireMessage) (s : State) (out : HubResults A)
      → After (KeepsFirst s) (handle_decoded now id conn decoded (s, out))
  handle_decoded-kept now id conn (err e) s out = record { registered = λ h. h; run_state = refl }
  handle_decoded-kept now id conn (ok msg) s out =
      let (conn', out', events) = receive_msg conn out now msg in
      let s' = record s { connections = insert id conn' s.connections } in
      bind-After_if (Keeps s') (KeepsFirst s)
        (for_each (handle_receive_event now id) events (s', out')) _
        (receive_events-kept now id events s' out')
        λ turn k. Kept-trans s s' turn.0 (record { registered = λ h. h; run_state = refl }) k

  handle_receive-kept :
      (now : UnixTimestamp) (id : ConnectionId) (decoded : Result String WireMessage) (s : State)
      (out : HubResults A)
      → After (KeepsFirst s) (handle_receive now id decoded (s, out))
  unfolding handle_receive
  handle_receive-kept now id decoded s out = elim (Option-cases (get id s.connections)) [
    | inl e ↦ rw (handle_receive, e) (Kept-refl s)
    | inr (conn, e) ↦ rw (handle_receive, e) (handle_decoded-kept now id conn decoded s out)
  ]

  handle_search_for_doc-kept :
      (d : DocumentId) (s : State) (out : HubResults A)
      → After (KeepsFirst s) (handle_search_for_doc d (s, out))
  unfolding handle_search_for_doc
  handle_search_for_doc-kept d s out = elim (Option-cases (find_actor_for_document d s)) [
    | inl e ↦
        rw (handle_search_for_doc, e)
          (bind-After_if (KeepsFirst s) (KeepsFirst s) (spawn_actor d none none (s, out)) _
            (spawn_actor-kept d none none s out e) (λ r k. k))
    | inr (info, e) ↦ rw (handle_search_for_doc, e) (Kept-refl s)
  ]

  abbrev GoesOn : {B : Type 0} → Rng → State → Turn A × B → Type 0
  GoesOn rng s r = Onwards rng s r.0.0

  kept_GoesOn :
      {B : Type 0} (rng : Rng) (s : State) (r : Turn A × B) → KeepsFirst s r → GoesOn rng s r
  kept_GoesOn rng s r k = Kept-Onwards rng s r.0.0 k

  create-Onwards :
      (rng : Rng) (command_id : CommandId) (doc : A) (s : State) (out : HubResults A)
      → After
          (λ (turn : Turn A). Onwards rng s turn.0)
          (handle_create_document rng.document_id command_id doc (s, out))
  unfolding handle_create_document
  create-Onwards rng command_id doc s out =
      bind-After_if _ (λ (turn : Turn A). Onwards rng s turn.0)
        (spawn_actor rng.document_id (some doc) none (s, out)) _
        (spawn_actor-any rng.document_id (some doc) none s out)
        λ r (reg, same). record { registered = reg; rises = omega (arith, ap rank same) }

  pub handle_command-Onwards :
      (rng : Rng) (now : UnixTimestamp) (command_id : CommandId) (cmd : Command A) (s : State)
      (out : HubResults A)
      → After (GoesOn rng s) (handle_command rng now command_id cmd (s, out))
  unfolding handle_command
  handle_command-Onwards rng now command_id (Command.receive id msg) s out =
      bind-After_if (KeepsFirst s) (GoesOn rng s) (handle_receive now id msg (s, out)) _
        (handle_receive-kept now id msg s out) (λ r k. kept_GoesOn rng s r k)
  handle_command-Onwards rng now command_id (Command.actor_is_ready d) s out =
      Kept-Onwards rng s s (Kept-refl s)
  handle_command-Onwards rng now command_id (Command.create_document doc) s out =
      bind-After_if (λ (turn : Turn A). Onwards rng s turn.0) (GoesOn rng s)
        (handle_create_document rng.document_id command_id doc (s, out)) _
        (create-Onwards rng command_id doc s out) (λ r k. k)
  handle_command-Onwards rng now command_id (Command.search_for_doc d) s out =
      bind-After_if (KeepsFirst s) (GoesOn rng s) (handle_search_for_doc d (s, out)) _
        (handle_search_for_doc-kept d s out) (λ r k. kept_GoesOn rng s r k)
