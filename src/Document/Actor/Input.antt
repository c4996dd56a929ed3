-- ===== src/Document/Actor/Input.antt =====
-- The inputs of a document actor and its interface:
-- samod-core/src/actors/document/document_actor.rs. A panic is `none`.
use samod.Prelude.{
  ℕ, Bool, true, false, not, ◌&&◌, Option, none, some, List, [], ◌∷◌, ◌++◌, ◌==◌, nat_eq, string_eq,
  list_eq, if◌then◌else◌,
}
use samod.Prelude.Map.{Map, keys, get, remove}
use samod.Prelude.Panic.{◌>>=◌}
use samod.Prelude.Result.{Result, ok, err}
use samod.Network.{ConnectionId, Bytes, IoTaskId, PeerId, UnixTimestamp}
use samod.Share.{ShareConfig}
use samod.Messages.{DocMessage, sync_msg, ephemeral_msg, EphemeralMessage, Broadcast, HubToDocMsg}
use samod.Hub.State.{RunState}
use samod.Hub.Results.{SpawnArgs}
use samod.Document.Io.{IoResult, StorageResult, DocumentIoResult}
use samod.Document.Library.{Automerge}
use samod.Document.Results.{
  DocActorResult, new, emit_ephemeral_message, send_broadcast, emit_doc_changed,
}
use samod.Document.OnDisk
use samod.Document.OnDisk.{add_keys, task_complete}
use samod.Document.Load
use samod.Document.Load.{LoadComplete, take_complete, handle_result}
use samod.Document.Peer.{PeerDocConnection, can_read, can_send}
use samod.Document.Phases.{nothing_pending}
use samod.Document.Actor.{
  DocumentActor, Turn, loading, ready, DocumentError, invalid_state, ActorInput, terminate,
  update_share_policy, handle_doc_message, new_connection, connection_closed, io_complete, tick,
  from_hub, retain_tasks, is_document_ready, is_stopped,
}
use samod.Document.Actor.Sync.{
  add_connection, remove_connection, handle_sync_message, apply_share_policy, handle_load,
}
use samod.Document.Actor.Step.{Peers, step}

-- `n` is the counter of task identifiers.
abbrev pub stopped_result : ℕ → DocActorResult
stopped_result n = record (new n) { stopped = true }

abbrev pub after_terminate : RunState → RunState
after_terminate RunState.running = RunState.stopping
after_terminate state = state

module _ {am : Automerge} where
  -- The connections of a peer.
  abbrev pub connections_of : PeerId → Peers am → List ConnectionId
  connections_of peer_id [] = []
  connections_of peer_id ((id, c) ∷ peers) =
      let rest = connections_of peer_id peers in if c.peer_id == peer_id then id ∷ rest else rest

  -- The connections that a message may go to, but for those of its sender.
  abbrev pub gossip_targets : PeerId → Peers am → List ConnectionId
  gossip_targets sender_id [] = []
  gossip_targets sender_id ((id, c) ∷ peers) =
      let rest = gossip_targets sender_id peers in
      if not (c.peer_id == sender_id) && can_send c then id ∷ rest else rest

  abbrev pub broadcast_targets : Peers am → List ConnectionId
  broadcast_targets [] = []
  broadcast_targets ((id, c) ∷ peers) =
      let rest = broadcast_targets peers in if can_send c then id ∷ rest else rest

  abbrev pub apply_each : UnixTimestamp → ShareConfig → List ConnectionId → Turn am → Turn am
  apply_each now config [] turn = turn
  apply_each now config (id ∷ ids) turn =
      apply_each now config ids (apply_share_policy now id config turn)

  abbrev pub update_policy : UnixTimestamp → PeerId → ShareConfig → Turn am → Turn am
  update_policy now peer_id config (a, out) =
      let ids = connections_of peer_id a.peer_connections in
      apply_each now config ids
        (record a { check_policy_tasks = retain_tasks ids a.check_policy_tasks }, out)

  abbrev pub gossip : EphemeralMessage → Turn am → Turn am
  gossip msg (a, out) = (
    a,
    send_broadcast (emit_ephemeral_message out msg.content)
        (gossip_targets msg.sender_id a.peer_connections) (Broadcast.gossip msg),
  )

  abbrev pub may_read : Option (PeerDocConnection am) → Bool
  may_read none = false
  may_read (some c) = can_read c

  -- `none` is an early return, which leaves the step out.
  abbrev pub handle_message_of :
      UnixTimestamp → ConnectionId → UnixTimestamp → DocMessage → Turn am → Bool × Turn am
  handle_message_of now id received_at (sync_msg msg) turn =
      (true, handle_sync_message now id msg received_at turn)
  handle_message_of now id received_at (ephemeral_msg msg) (a, out) =
      if may_read (get id a.peer_connections)
      then (true, gossip msg (a, out))
      else (false, (a, out))

  abbrev pub complete_storage : IoTaskId → StorageResult → Turn am → Option (Turn am)
  complete_storage task_id result (a, out) =
      if Load.has_task task_id a.load_state
      then (handle_result task_id result a.load_state >>= λ load.
          some (record a { load_state = load }, out))
      else if OnDisk.has_task task_id a.on_disk_state
      then (task_complete task_id result a.on_disk_state >>= λ on_disk.
          some (record a { on_disk_state = on_disk }, out))
      else none

  abbrev pub finish_load : UnixTimestamp → Option LoadComplete → Turn am → Turn am
  finish_load now none turn = turn
  finish_load now (some done) turn =
      let (a, out) = handle_load now done.snapshots done.incrementals turn in
      (
        record a {
          on_disk_state = add_keys (keys done.snapshots ++ keys done.incrementals) a.on_disk_state;
        },
        out,
      )

  abbrev pub after_io : UnixTimestamp → Turn am → Turn am
  after_io now (a, out) =
      let (done, load) = take_complete a.load_state in
      finish_load now done (record a { load_state = load }, out)

  abbrev pub decide :
      UnixTimestamp → IoTaskId → ShareConfig → Turn am → Option ConnectionId → Bool × Turn am
  decide now task_id config turn none = (false, turn)
  decide now task_id config (a, out) (some conn_id) =
      let a' : DocumentActor am = record a {
        check_policy_tasks = remove task_id a.check_policy_tasks;
      } in
      (true, after_io now (apply_share_policy now conn_id config (a', out)))

  abbrev pub process_io :
      UnixTimestamp → IoTaskId → DocumentIoResult → Turn am → Option (Bool × Turn am)
  process_io now task_id (DocumentIoResult.storage result) turn =
      complete_storage task_id result turn >>= λ turn'. some (true, after_io now turn')
  process_io now task_id (DocumentIoResult.check_share_policy config) (a, out) =
      some (decide now task_id config (a, out) (get task_id a.check_policy_tasks))

  -- Whether the step follows, and the turn.
  unfoldable pub process : UnixTimestamp → ActorInput → Turn am → Option (Bool × Turn am)
  process now (update_share_policy peer_id config) turn =
      some (true, update_policy now peer_id config turn)
  process now terminate (a, out) =
      some (true, (record a { run_state = after_terminate a.run_state }, out))
  process now (handle_doc_message id msg received_at) turn =
      some (handle_message_of now id received_at msg turn)
  process now (new_connection id peer_id) (a, out) =
      add_connection id peer_id a >>= λ a'. some (true, (a', out))
  process now (connection_closed id) (a, out) = some (true, (remove_connection id a, out))
  process now (io_complete result) turn = process_io now result.task_id result.payload turn
  process now tick turn = some (true, turn)

  abbrev pub and_step : UnixTimestamp → Bool × Turn am → Turn am
  and_step now (true, turn) = step now turn
  and_step now (false, turn) = turn

  unfoldable pub handle_input : UnixTimestamp → ActorInput → Turn am → Option (Turn am)
  handle_input now input turn = process now input turn >>= λ r. some (and_step now r)

  unfoldable pub handle_message :
      UnixTimestamp → HubToDocMsg → ℕ → DocumentActor am → Option (Turn am)
  handle_message now msg n a =
      if is_stopped a
      then some (a, stopped_result n)
      else handle_input now (from_hub msg) (a, new n)

  unfoldable pub handle_io_complete :
      UnixTimestamp → IoResult DocumentIoResult → ℕ → DocumentActor am → Option (Turn am)
  handle_io_complete now result n a =
      if is_stopped a
      then some (a, stopped_result n)
      else handle_input now (io_complete result) (a, new n)

  -- `broadcast`
  abbrev pub broadcast_message : Bytes → ℕ → DocumentActor am → DocActorResult
  broadcast_message msg n a =
      send_broadcast (new n) (broadcast_targets a.peer_connections) (Broadcast.fresh msg)

  abbrev pub changed_heads : List ℕ → List ℕ → Turn am → Turn am
  changed_heads old_heads new_heads (a, out) =
      (a, if old_heads == new_heads then out else emit_doc_changed out new_heads)

  -- `begin_modification`, the closure and `commit`; what the closure returns is left out.
  unfoldable pub with_document :
      UnixTimestamp
      → (am.Doc → am.Doc)
      → ℕ
      → DocumentActor am
      → Result DocumentError (Option (Turn am))
  with_document now f n a =
      let a' : DocumentActor am = record a { doc = f a.doc } in
      if is_document_ready a
      then ok (
          handle_input now tick (a', new n) >>= λ turn.
          some (changed_heads (am.get_heads a.doc) (am.get_heads a'.doc) turn))
      else err (invalid_state "document is not ready")

  abbrev pub first_message :
      UnixTimestamp → ConnectionId → Option DocMessage → Turn am → Option (Turn am)
  first_message now id none turn = some turn
  first_message now id (some msg) turn = handle_input now (handle_doc_message id msg now) turn

  abbrev pub connect_all :
      UnixTimestamp → Map ConnectionId (PeerId × Option DocMessage) → Turn am → Option (Turn am)
  connect_all now [] turn = some turn
  connect_all now ((id, (peer_id, msg)) ∷ connections) (a, out) =
      add_connection id peer_id a >>= λ a'.
      first_message now id msg (a', out) >>= connect_all now connections

  abbrev pub initial_actor : SpawnArgs am.Doc → DocumentActor am
  initial_actor args = record {
    document_id = args.document_id;
    id = args.actor_id;
    local_peer_id = args.local_peer_id;
    load_state = Load.begin (Load.new args.document_id);
    peer_connections = [];
    on_disk_state = OnDisk.new;
    check_policy_tasks = [];
    phase = elim args.initial_content [ none ↦ loading nothing_pending | some doc ↦ ready ];
    run_state = RunState.running;
    doc = elim args.initial_content [ none ↦ am.new_doc | some doc ↦ doc ];
    last_status_update = none;
  }

  -- `DocumentActor::new`
  unfoldable pub new_actor : UnixTimestamp → SpawnArgs am.Doc → ℕ → Option (Turn am)
  new_actor now args n =
      connect_all now args.initial_connections (initial_actor args, new n) >>= λ turn.
      some (step now turn)
