-- ===== src/Document/Actor/Process.antt =====
-- What the processing of an input keeps of the result, before the step that ends it:
-- samod-core/src/actors/document/document_actor.rs.
use samod.Document.Actor.{
  ActorInput, DocumentActor, Phase, Turn, connection_closed, handle_doc_message, io_complete,
  loading, new_connection, ready, requesting, retain_tasks, store, terminate, tick,
  update_share_policy,
}
use samod.Document.Actor.Upkeep.{complete_storage-result}
use samod.Document.Actor.Input.{
  after_io, apply_each, complete_storage, connections_of, decide, finish_load, handle_message_of,
  may_read, process, process_io, gossip_targets,
}
use samod.Document.Actor.Sync.{
  add_connection, apply_share_policy, decide_on, dispatch, handle_held, handle_held_of, handle_load,
  handle_pending, handle_sync_message, handle_under, hold_for_policy, is_data, leave_loading,
  load_all, phase_after_load, requested_by, note_message,
}
use samod.Document.Io.{DocumentIoResult}
use samod.Document.Library.{Automerge}
use samod.Document.Load.{LoadComplete, take_complete}
use samod.Document.Peer.{
  PeerDocConnection, buffer_sync_message, message_bytes, set_share_config, share_config,
}
use samod.Document.Phases.{receive_ready}
use samod.Document.Results.{
  received, push_message, DocActorResult, SyncDirection, emit_doc_changed, emit_ephemeral_message,
}
use samod.Messages.{
  DocMessage, DocToHubMsg, SyncMessage, disconnect, ephemeral_msg, send_sync_message, sync_msg,
  broadcast, Broadcast,
}
use samod.Network.{ConnectionId, IoTaskId, UnixTimestamp, ChangeHash, Bytes}
use samod.Prelude.{
  Bool, List, Option, Option-cases, [], arith, false, if_both, inl, inr, list_eq, nat_eq, none, not,
  some, subst, sym, true, ◌==◌, ◌∷◌, ◌≡◌, ℕ,
}
use samod.Prelude.Map.{Map, get, remove}
use samod.Prelude.Panic.{bind_some, some_cancel}
use samod.Share.{ShareConfig}
use samod.Share
use samod.Document.Actor.Disclosure.{IsDataless}

-- What is kept of a result when something without a document's data is added to it.
pub record Steady (P : DocActorResult → Type 0) : Type 0 where
  pub pushed :
      (out : DocActorResult) (msg : DocToHubMsg) → IsDataless msg → P out → P (push_message out msg)
  pub noted :
      (id : ConnectionId) (direction : SyncDirection) (bytes : ℕ) (out : DocActorResult)
      → P out
      → P (note_message id direction bytes out)
  pub changed :
      (out : DocActorResult) (heads : List ChangeHash) → P out → P (emit_doc_changed out heads)
  pub emitted : (out : DocActorResult) (msg : Bytes) → P out → P (emit_ephemeral_message out msg)

module _ {am : Automerge} {P : DocActorResult → Type 0} (steady : Steady P) where
  hold-Steady :
      (id : ConnectionId) (r : Bool × PeerDocConnection am) (turn : Turn am)
      → P turn.1
      → P (hold_for_policy id r turn).1
  hold-Steady id (true, c) turn h = h
  hold-Steady id (false, c) turn h =
      steady.pushed turn.1 (disconnect id "too many sync messages waiting for share policy") tt h

  dispatch-Steady :
      (now : UnixTimestamp) (id : ConnectionId) (c : PeerDocConnection am) (msg : SyncMessage)
      (phase : Phase) (turn : Turn am)
      → P turn.1
      → P (dispatch now id c msg phase turn).1.1
  dispatch-Steady now id c msg (loading l) turn h = h
  dispatch-Steady now id c msg (requesting request) turn h = h
  dispatch-Steady now id c msg ready (a, out) h =
      let heads = am.get_heads (receive_ready now a.doc c msg).1 in
      if_both P (am.get_heads a.doc == heads) h (steady.changed out heads h)

  handle_under-Steady :
      (now : UnixTimestamp) (id : ConnectionId) (c : PeerDocConnection am) (msg : SyncMessage)
      (at : UnixTimestamp) (turn : Turn am) (config : Option ShareConfig)
      → P turn.1
      → P (handle_under now id c msg at turn config).1
  handle_under-Steady now id c msg at turn none h =
      hold-Steady id (buffer_sync_message msg at c) turn h
  handle_under-Steady now id c msg at (a, out) (some config) h =
      let r : Bool × Turn am = dispatch now id c msg a.phase (a, out) in
      let silent : P r.1.1 = dispatch-Steady now id c msg a.phase (a, out) h in
      if_both (λ (t : Turn am). P t.1) (not (Share.can_read config))
        (if_both P (is_data msg)
          (steady.pushed out (send_sync_message id a.document_id SyncMessage.doc_unavailable)
            (λ e. ground (arith, e)) h)
          h)
        (if_both P r.0 (steady.noted id received (message_bytes msg) r.1.1 silent) silent)

  handle_sync_message-Steady :
      (now : UnixTimestamp) (id : ConnectionId) (msg : SyncMessage) (at : UnixTimestamp)
      (turn : Turn am)
      → P turn.1
      → P (handle_sync_message now id msg at turn).1
  unfolding handle_sync_message
  handle_sync_message-Steady now id msg at (a, out) h =
      elim (Option-cases (get id a.peer_connections)) [
        | inl absent ↦ rw absent h
        | inr (c, found) ↦
            (let c' = requested_by msg c in
              rw found
                (handle_under-Steady now id c' msg at (store id c' a, out) (share_config c') h))
      ]

  handle_pending-Steady :
      (now : UnixTimestamp) (id : ConnectionId) (pending : List (SyncMessage × UnixTimestamp))
      (turn : Turn am)
      → P turn.1
      → P (handle_pending now id pending turn).1
  handle_pending-Steady now id [] turn h = h
  handle_pending-Steady now id ((msg, at) ∷ pending) turn h =
      handle_pending-Steady now id pending (handle_sync_message now id msg at turn)
        (handle_sync_message-Steady now id msg at turn h)

  apply_share_policy-Steady :
      (now : UnixTimestamp) (id : ConnectionId) (config : ShareConfig) (turn : Turn am)
      → P turn.1
      → P (apply_share_policy now id config turn).1
  unfolding apply_share_policy
  apply_share_policy-Steady now id config (a, out) h =
      elim (Option-cases (get id a.peer_connections)) [
        | inl absent ↦ rw absent h
        | inr (c, found) ↦ rw found (
            handle_pending-Steady now id (set_share_config config c).1.pending_sync_messages
              (decide_on id config c a, out) h)
      ]

  apply_each-Steady :
      (now : UnixTimestamp) (config : ShareConfig) (ids : List ConnectionId) (turn : Turn am)
      → P turn.1
      → P (apply_each now config ids turn).1
  apply_each-Steady now config [] turn h = h
  apply_each-Steady now config (id ∷ ids) turn h =
      apply_each-Steady now config ids (apply_share_policy now id config turn)
        (apply_share_policy-Steady now id config turn h)

  handle_held_of-Steady :
      (now : UnixTimestamp) (id : ConnectionId) (msgs : List SyncMessage) (turn : Turn am)
      → P turn.1
      → P (handle_held_of now id msgs turn).1
  handle_held_of-Steady now id [] turn h = h
  handle_held_of-Steady now id (msg ∷ msgs) turn h =
      handle_held_of-Steady now id msgs (handle_sync_message now id msg now turn)
        (handle_sync_message-Steady now id msg now turn h)

  handle_held-Steady :
      (now : UnixTimestamp) (held : Map ConnectionId (List SyncMessage)) (turn : Turn am)
      → P turn.1
      → P (handle_held now held turn).1
  handle_held-Steady now [] turn h = h
  handle_held-Steady now ((id, msgs) ∷ held) turn h =
      handle_held-Steady now held (handle_held_of now id msgs turn)
        (handle_held_of-Steady now id msgs turn h)

  leave_loading-Steady :
      (now : UnixTimestamp) (phase : Phase) (turn : Turn am)
      → P turn.1
      → P (leave_loading now phase turn).1
  leave_loading-Steady now (loading l) (a, out) h =
      handle_held-Steady now l.pending_sync_messages (record a { phase = phase_after_load a }, out)
        h
  leave_loading-Steady now (requesting request) turn h = h
  leave_loading-Steady now ready turn h = h

  finish_load-Steady :
      (now : UnixTimestamp) (done : Option LoadComplete) (turn : Turn am)
      → P turn.1
      → P (finish_load now done turn).1
  unfolding handle_load
  finish_load-Steady now none turn h = h
  finish_load-Steady now (some done) (a, out) h =
      let a' : DocumentActor am = record a {
        doc = load_all am done.incrementals (load_all am done.snapshots a.doc);
      } in
      leave_loading-Steady now a'.phase (a', out) h

  after_io-Steady : (now : UnixTimestamp) (turn : Turn am) → P turn.1 → P (after_io now turn).1
  after_io-Steady now (a, out) h =
      let (done, load) = take_complete a.load_state in
      finish_load-Steady now done (record a { load_state = load }, out) h

  handle_message_of-Steady :
      (now : UnixTimestamp) (id : ConnectionId) (at : UnixTimestamp) (msg : DocMessage)
      (turn : Turn am)
      → P turn.1
      → P (handle_message_of now id at msg turn).1.1
  handle_message_of-Steady now id at (sync_msg msg) turn h =
      handle_sync_message-Steady now id msg at turn h
  handle_message_of-Steady now id at (ephemeral_msg msg) (a, out) h =
      if_both (λ (r : Bool × Turn am). P r.1.1) (may_read (get id a.peer_connections))
        (steady.pushed (emit_ephemeral_message out msg.content)
          (broadcast (gossip_targets msg.sender_id a.peer_connections) (Broadcast.gossip msg)) tt
          (steady.emitted out msg.content h))
        h

  decide-Steady :
      (now : UnixTimestamp) (task_id : IoTaskId) (config : ShareConfig) (turn : Turn am)
      (conn : Option ConnectionId)
      → P turn.1
      → P (decide now task_id config turn conn).1.1
  decide-Steady now task_id config turn none h = h
  decide-Steady now task_id config (a, out) (some id) h =
      let a' : DocumentActor am = record a {
        check_policy_tasks = remove task_id a.check_policy_tasks;
      } in
      after_io-Steady now (apply_share_policy now id config (a', out))
        (apply_share_policy-Steady now id config (a', out) h)

  process_io-Steady :
      (now : UnixTimestamp) (task_id : IoTaskId) (result : DocumentIoResult) (turn : Turn am)
      (r : Bool × Turn am)
      → process_io now task_id result turn ≡ some r
      → P turn.1
      → P r.1.1
  process_io-Steady now task_id (DocumentIoResult.storage result) turn r e h =
      let (t, f, g) =
        bind_some (complete_storage task_id result turn) (λ t. some (true, after_io now t)) r e in
      subst (λ r'. P r'.1.1) (some_cancel g)
        (after_io-Steady now t (subst P (sym (complete_storage-result task_id result turn t f)) h))
  process_io-Steady now task_id (DocumentIoResult.check_share_policy config) turn r e h =
      subst (λ r'. P r'.1.1) (some_cancel e)
        (decide-Steady now task_id config turn (get task_id turn.0.check_policy_tasks) h)

  pub process-Steady :
      (now : UnixTimestamp) (input : ActorInput) (turn : Turn am) (r : Bool × Turn am)
      → process now input turn ≡ some r
      → P turn.1
      → P r.1.1
  unfolding process
  process-Steady now (update_share_policy peer_id config) (a, out) r e h =
      let ids = connections_of peer_id a.peer_connections in
      subst (λ r'. P r'.1.1) (some_cancel e)
        (apply_each-Steady now config ids
          (record a { check_policy_tasks = retain_tasks ids a.check_policy_tasks }, out) h)
  process-Steady now terminate turn r e h = subst (λ r'. P r'.1.1) (some_cancel e) h
  process-Steady now (handle_doc_message id msg at) turn r e h =
      subst (λ r'. P r'.1.1) (some_cancel e) (handle_message_of-Steady now id at msg turn h)
  process-Steady now (new_connection id peer_id) turn r e h =
      let (a', f, g) =
        bind_some (add_connection id peer_id turn.0) (λ a'. some (true, (a', turn.1))) r e in
      subst (λ r'. P r'.1.1) (some_cancel g) h
  process-Steady now (connection_closed id) turn r e h = subst (λ r'. P r'.1.1) (some_cancel e) h
  process-Steady now (io_complete result) turn r e h =
      process_io-Steady now result.task_id result.payload turn r e h
  process-Steady now tick turn r e h = subst (λ r'. P r'.1.1) (some_cancel e) h
