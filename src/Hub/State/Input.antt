-- ===== src/Hub/State/Input.antt =====
-- What reaches the hub and what it does at once: the inputs of
-- samod-core/src/actors/hub/hub_input.rs and hub/command/command.rs, with `handle_command` and the
-- arms of `handle_event` of hub/state.rs.
use samod.Prelude.{ℕ, String, Bool, true, false, Option, none, some, map, nat_eq, if◌then◌else◌}
use samod.Prelude.Map.{get, insert, remove, values}
use samod.Prelude.Panic.{◌>>=◌}
use samod.Prelude.Result.{Result}
use samod.Network.{
  ConnectionId, DialerId, ListenerId, DocumentActorId, DocumentId, CommandId, PeerId, UnixTimestamp,
}
use samod.Share.{ShareConfig}
use samod.Messages.{
  DocToHubMsg, doc_search_changed, peer_states_changed, send_sync_message, broadcast, disconnect,
  terminated, terminate, update_share_policy, WireMessage, from_sync_message, SyncMessage,
}
use samod.Hub.Results.{
  HubResults, CommandResult, actor_ready, emit_connection_event, send_to_doc_actor,
}
use samod.Hub.Results
use samod.Hub.Connection.{close}
use samod.Hub.Searches.{ActorInfo}
use samod.Hub.State.{
  Turn, RunState, running, stopping, find_established, find_actor_for_document, update_peer_states,
  update_document_search_phase, tell_actors,
}
use samod.Hub.State.Dialing.{
  DialerConfig, ListenerConfig, handle_add_dialer, handle_add_listener, lose_connection,
  handle_create_dialer_connection, handle_create_listener_connection, handle_dialer_failure,
  handle_remove_dialer, handle_remove_listener, handle_tick, close_all_network_state,
}
use samod.Hub.State.Documents.{handle_receive, handle_create_document, handle_search_for_doc}
use samod.Hub.State.Documents

pub data Command (A : Type 0) : Type 0 where
  receive : ConnectionId → Result String WireMessage → Command A
  actor_is_ready : DocumentId → Command A
  create_document : A → Command A
  search_for_doc : DocumentId → Command A

pub data HubInput (A : Type 0) : Type 0 where
  command : CommandId → Command A → HubInput A
  share_policy : DocumentId → PeerId → ShareConfig → HubInput A
  tick : HubInput A
  actor_message : DocumentActorId → DocToHubMsg → HubInput A
  connection_lost : ConnectionId → HubInput A
  add_dialer : CommandId → DialerConfig → HubInput A
  add_listener : CommandId → ListenerConfig → HubInput A
  create_dialer_connection : CommandId → DialerId → Option PeerId → HubInput A
  create_listener_connection : CommandId → ListenerId → Option PeerId → HubInput A
  dial_failed : DialerId → String → Bool → HubInput A
  remove_dialer : DialerId → HubInput A
  remove_listener : ListenerId → HubInput A
  stop : HubInput A

-- What the generator gives to one event: an identifier, should it create a document, and the
-- jitter of each dialer, which retries at most once in an event.
pub record Rng : Type 0 where
  pub document_id : DocumentId
  pub jitter : DialerId → ℕ → ℕ

-- `if self.run_state == RunState::Running`
abbrev pub is_running : RunState → Bool
is_running running = true
is_running _ = false

module _ {A : Type 0} where
  abbrev pub complete : CommandId → CommandResult → HubResults A → HubResults A
  complete command_id result out = record out {
    completed_commands = insert command_id result out.completed_commands;
  }

  abbrev completed : CommandId → Turn A × CommandResult → Turn A
  completed command_id ((s, out), result) = (s, complete command_id result out)

  abbrev pub complete_some : CommandId → Turn A × Option CommandResult → Turn A
  complete_some command_id (turn, none) = turn
  complete_some command_id (turn, some result) = completed command_id (turn, result)

  abbrev immediate : Turn A × CommandResult → Turn A × Option CommandResult
  immediate (turn, result) = (turn, some result)

  unfoldable pub handle_command :
      Rng → UnixTimestamp → CommandId → Command A → Turn A → Option (Turn A × Option CommandResult)
  handle_command rng now command_id (receive connection_id msg) turn =
      handle_receive now connection_id msg turn >>= λ done. some (immediate done)
  handle_command rng now command_id (actor_is_ready document_id) turn =
      some (turn, some actor_ready)
  handle_command rng now command_id (create_document content) turn =
      handle_create_document rng.document_id command_id content turn >>= λ turn'. some (turn', none)
  handle_command rng now command_id (search_for_doc document_id) turn =
      handle_search_for_doc document_id turn >>= λ done. some (immediate done)

  unfoldable pub send_from_actor : ConnectionId → DocumentId → SyncMessage → Turn A → Turn A
  unfolding from_sync_message
  send_from_actor connection_id document_id msg (s, out) = elim (find_established s connection_id) [
    | none ↦ (s, out)
    | some (conn, target_id) ↦
        (s, Results.send out conn.id (from_sync_message s.peer_id target_id document_id msg))
  ]

  unfoldable pub handle_actor_message : DocumentActorId → DocToHubMsg → Turn A → Turn A
  unfolding send_from_actor
  handle_actor_message actor_id (send_sync_message connection_id document_id msg) turn =
      send_from_actor connection_id document_id msg turn
  handle_actor_message actor_id (peer_states_changed new_states) (s, out) =
      (update_peer_states actor_id new_states s, out)
  handle_actor_message actor_id (doc_search_changed new_phase) (s, out) =
      (update_document_search_phase actor_id new_phase s, out)
  handle_actor_message actor_id (broadcast connections msg) turn =
      Documents.broadcast actor_id connections msg turn
  handle_actor_message actor_id (disconnect connection_id reason) (s, out) =
      elim (get connection_id s.connections) [
        | none ↦ (s, out)
        | some conn ↦
            (record s { connections = insert connection_id (close conn reason) s.connections }, out)
      ]
  handle_actor_message actor_id terminated (s, out) =
      (record s { actors = remove actor_id s.actors }, out)

  abbrev pub stop_hub : Turn A → Turn A
  stop_hub (s, out) = close_all_network_state (
    record s { run_state = stopping },
    tell_actors (map (λ (a : ActorInfo). a.actor_id) (values s.actors)) terminate out,
  )

  abbrev pub change_policy : DocumentId → PeerId → ShareConfig → Turn A → Turn A
  change_policy document_id peer_id config (s, out) = elim (find_actor_for_document document_id s) [
    | none ↦ (s, out)
    | some actor ↦ (s, send_to_doc_actor out actor.actor_id (update_share_policy peer_id config))
  ]

  unfoldable pub handle_input : Rng → UnixTimestamp → HubInput A → Turn A → Option (Turn A)
  unfolding handle_command handle_actor_message
  handle_input rng now stop (s, out) =
      some (if is_running s.run_state then stop_hub (s, out) else (s, out))
  handle_input rng now (command command_id cmd) (s, out) = elim (is_running s.run_state) [
    | true ↦ handle_command rng now command_id cmd (s, out) >>= λ done.
        some (complete_some command_id done)
    | false ↦ some (s, out)
  ]
  handle_input rng now (share_policy document_id peer_id config) (s, out) = some (
      if is_running s.run_state
      then change_policy document_id peer_id config (s, out)
      else (s, out))
  handle_input rng now tick turn = some (handle_tick now turn)
  handle_input rng now (actor_message actor_id msg) turn =
      some (handle_actor_message actor_id msg turn)
  handle_input rng now (connection_lost connection_id) turn =
      some (lose_connection rng.jitter now connection_id turn)
  handle_input rng now (add_dialer command_id config) turn =
      some (completed command_id (handle_add_dialer config turn))
  handle_input rng now (add_listener command_id config) turn =
      some (completed command_id (handle_add_listener config turn))
  handle_input rng now (create_dialer_connection command_id dialer_id expected_peer_id) turn =
      handle_create_dialer_connection now dialer_id expected_peer_id turn >>= λ done.
      some (completed command_id done)
  handle_input rng now (create_listener_connection command_id listener_id expected_peer_id) turn =
      handle_create_listener_connection now listener_id expected_peer_id turn >>= λ done.
      some (completed command_id done)
  handle_input rng now (dial_failed dialer_id error permanent) turn =
      some (handle_dialer_failure rng.jitter now dialer_id permanent turn)
  handle_input rng now (remove_dialer dialer_id) turn = some (handle_remove_dialer dialer_id turn)
  handle_input rng now (remove_listener listener_id) turn =
      some (handle_remove_listener listener_id turn)
