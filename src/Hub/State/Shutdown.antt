-- ===== src/Hub/State/Shutdown.antt =====
-- How the hub stops: the arm `HubInput::Stop` of `handle_event` and `close_all_network_state` of
-- samod-core/src/actors/hub/state.rs.
use samod.Prelude.{
  ◌≡◌, refl, ap, sym, ◌∙◌, inl, inr, false, some, List, [], ◌∷◌, ◌++◌, map, nat_eq, Option-cases,
}
use samod.Prelude.Lists.{length, append_nil, append_assoc, is_empty}
use samod.Prelude.Map.{
  Map, keys, values, get, insert, remove, remove_each, remove_each-keys, remove_absent,
}
use samod.Network.{
  ConnectionId, DocumentActorId, CommandId, UnixTimestamp, ConnectionInfo, state_changed,
}
use samod.Messages.{HubToDocMsg, terminate}
use samod.Hub.Results.{HubResults, CommandResult, emit_connection_event, send_to_doc_actor}
use samod.Hub.Searches.{ActorInfo}
use samod.Hub.State.{State, Turn, running, stopping, remove_connection, tell_actors}
use samod.Hub.State.Dialing.{lose_connections, remove_all, close_all_network_state}
use samod.Hub.State.Input.{HubInput, Rng, handle_input, stop_hub, is_running}
use samod.Hub.State.Event.{
  input, handle_event, drop_closed, connect_documents, report_news, emit_search_state_updates,
  finish, settled, is_stopped, complete_all, emit_infos,
}
use samod.Hub.State.Subscriptions.{pop_infos}
use samod.Hub.Pending.{pop_completed_commands}
use samod.Hub.State.Frame.{close_all_network_state-frame}

abbrev pub actor_ids : State → List DocumentActorId
actor_ids s = map (λ (a : ActorInfo). a.actor_id) (values s.actors)

module _ {A : Type 0} where
  remove_connection-quiet :
      (id : ConnectionId) (turn : Turn A)
      → ((remove_connection false id turn).0.0.connections ≡ remove id turn.0.connections)
        × ((remove_connection false id turn).0.1.actor_messages ≡ turn.1.actor_messages)
  unfolding remove_connection
  remove_connection-quiet id (s, out) = elim (Option-cases (get id s.connections)) [
    | inl e ↦ rw (remove_connection, e) ((sym (remove_absent id s.connections e)), refl)
    | inr (conn, e) ↦ rw (remove_connection, e) (refl, refl)
  ]

  remove_all-quiet :
      (ids : List ConnectionId) (turn : Turn A)
      → ((remove_all false ids turn).0.connections ≡ remove_each ids turn.0.connections)
        × ((remove_all false ids turn).1.actor_messages ≡ turn.1.actor_messages)
  unfolding remove_all
  remove_all-quiet [] turn = (refl, refl)
  remove_all-quiet (id ∷ ids) turn =
      let turn' = (remove_connection false id turn).0 in
      let (conns, msgs) = remove_connection-quiet id turn in
      let (conns', msgs') = remove_all-quiet ids turn' in
      (conns' ∙ ap (remove_each ids) conns, msgs' ∙ msgs)

  tell_actors-messages :
      (ids : List DocumentActorId) (msg : HubToDocMsg) (out : HubResults A)
      → (tell_actors ids msg out).actor_messages ≡ out.actor_messages ++ map (λ id. (id, msg)) ids
  tell_actors-messages [] msg out = sym (append_nil out.actor_messages)
  tell_actors-messages (id ∷ ids) msg out =
      tell_actors-messages ids msg (send_to_doc_actor out id msg)
      ∙ append_assoc out.actor_messages ((id, msg) ∷ []) (map (λ i. (i, msg)) ids)

  close_all-quiet :
      (turn : Turn A)
      → ((close_all_network_state turn).0.connections ≡ [])
        × ((close_all_network_state turn).0.dialers ≡ [])
        × ((close_all_network_state turn).0.listeners ≡ [])
        × ((close_all_network_state turn).1.actor_messages ≡ turn.1.actor_messages)
  unfolding close_all_network_state
  close_all-quiet (s, out) =
      let (s', out') = remove_all false (keys s.connections) (s, out) in
      let (conns, msgs) = remove_all-quiet (keys s.connections) (s, out) in
      (
        conns ∙ remove_each-keys s.connections,
        remove_each-keys s'.dialers,
        remove_each-keys s'.listeners,
        msgs,
      )

  drop_closed-none :
      (rng : Rng) (now : UnixTimestamp) (turn : Turn A)
      → turn.0.connections ≡ []
      → drop_closed rng now turn ≡ turn
  unfolding drop_closed lose_connections
  drop_closed-none rng now turn e = rw e refl

  connect_documents-idle :
      (turn : Turn A) → is_running turn.0.run_state ≡ false → connect_documents turn ≡ some turn
  unfolding connect_documents
  connect_documents-idle (s, out) e = rw (connect_documents, e) refl

  complete_all-messages :
      (done : List (CommandId × CommandResult)) (out : HubResults A)
      → (complete_all done out).actor_messages ≡ out.actor_messages
  complete_all-messages [] out = refl
  complete_all-messages ((id, result) ∷ done) out =
      complete_all-messages done
        (record out { completed_commands = insert id result out.completed_commands })

  emit_infos-messages :
      (s : State) (infos : Map ConnectionId ConnectionInfo) (out : HubResults A)
      → (emit_infos s infos out).actor_messages ≡ out.actor_messages
  emit_infos-messages s [] out = refl
  emit_infos-messages s ((id, info) ∷ infos) out = elim (Option-cases (get id s.connections)) [
    | inl e ↦ rw (emit_infos, e) (emit_infos-messages s infos out)
    | inr (conn, e) ↦
        rw (emit_infos, e)
          (emit_infos-messages s infos
            (emit_connection_event out (state_changed id conn.owner info)))
  ]

  report_news-empty :
      (turn : Turn A)
      → turn.0.connections ≡ []
      → ((report_news turn).0.connections ≡ [])
        × ((report_news turn).1.actor_messages ≡ turn.1.actor_messages)
  unfolding report_news emit_search_state_updates pop_infos pop_completed_commands
  report_news-empty (s, out) e =
      let (conns, infos) = pop_infos (keys s.connections) s.connections in
      (
        rw e refl,
        complete_all-messages s.pending_commands.completed_commands
              (emit_infos (record s { connections = conns }) infos out)
            ∙ emit_infos-messages (record s { connections = conns }) infos out,
      )

  after_stop : State → HubResults A → Turn A
  after_stop s out =
      let turn : Turn A = stop_hub (s, out) in
      finish (length turn.0.connections) (length turn.0.document_to_actor) (report_news turn)

  handle_event-after_stop :
      (rng : Rng) (now : UnixTimestamp) (s : State) (out : HubResults A)
      → s.run_state ≡ running
      → handle_event rng now (input HubInput.stop) (s, out) ≡ some (after_stop s out)
  unfolding handle_event handle_input after_stop
  handle_event-after_stop rng now s out e =
      let turn : Turn A = stop_hub (s, out) in
      let start : Turn A =
        (record s { run_state = stopping }, tell_actors (actor_ids s) terminate out) in
      let idle =
        connect_documents-idle turn
          (ap is_running (close_all_network_state-frame start).same_run_state) in
      let still = drop_closed-none rng now turn (close_all-quiet start).0 in
      rw (handle_event, ap is_stopped e, handle_input, ap is_running e, still, idle) refl

  -- A running hub that is told to stop closes its network for good: no connection, dialer or
  -- listener is left, every actor is told to terminate and hears nothing else, and the hub is
  -- stopping, or stopped if it has no actor.
  pub handle_event-stop :
      (rng : Rng) (now : UnixTimestamp) (s : State) (out : HubResults A)
      → s.run_state ≡ running
      → (turn : Turn A) × (handle_event rng now (input HubInput.stop) (s, out) ≡ some turn)
        × (turn.0.connections ≡ [])
        × (turn.0.dialers ≡ [])
        × (turn.0.listeners ≡ [])
        × (turn.0.run_state ≡ settled stopping (is_empty s.actors))
        × (turn.1.actor_messages ≡ out.actor_messages ++ map (λ id. (id, terminate)) (actor_ids s))
  unfolding after_stop finish report_news emit_search_state_updates
  handle_event-stop rng now s out e =
      let turn : Turn A = stop_hub (s, out) in
      let start : Turn A =
        (record s { run_state = stopping }, tell_actors (actor_ids s) terminate out) in
      let kept = close_all_network_state-frame start in
      let (conns, dialers, listeners, msgs) = close_all-quiet start in
      let (conns', msgs') = report_news-empty turn conns in
      (
        after_stop s out,
        handle_event-after_stop rng now s out e,
        conns',
        dialers,
        listeners,
        ap (λ r. settled r (is_empty turn.0.actors)) kept.same_run_state
            ∙ ap (λ m. settled stopping (is_empty m)) kept.same_actors,
        msgs' ∙ msgs ∙ tell_actors-messages (actor_ids s) terminate out,
      )
