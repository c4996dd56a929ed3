-- ===== src/Document/Actor/Upkeep.antt =====
-- The properties of connections that a document actor keeps, in its steps and its inputs:
-- samod-core/src/actors/document/document_actor.rs.
use samod.Prelude.{
  Bool, true, false, Option, none, some, List, [], ◌∷◌, ◌≡◌, nat_eq, list_eq, inl, inr, arith,
  subst, sym, Bool-cases, Option-cases,
}
use samod.Prelude.Lists.{All}
use samod.Prelude.Map.{values, get, insert, remove, contains_key, insert-All, remove-All}
use samod.Prelude.Panic.{some_cancel, bind_some}
use samod.Network.{ConnectionId, DocumentId, IoTaskId, PeerId, UnixTimestamp}
use samod.Share.{ShareConfig}
use samod.Messages.{DocMessage, sync_msg, ephemeral_msg}
use samod.Hub.State.{RunState}
use samod.Document.Io.{DocumentIoResult, StorageResult}
use samod.Document.Library.{Automerge}
use samod.Document.Results.{DocActorResult}
use samod.Document.OnDisk
use samod.Document.OnDisk.{is_flushed, task_complete}
use samod.Document.Load
use samod.Document.Load.{Chunks, LoadComplete, handle_result, take_complete}
use samod.Document.Peer.{PeerDocConnection, new, share_config}
use samod.Document.Actor.{
  retain_tasks, DocumentActor, Turn, Phase, loading, requesting, ready, ActorInput, terminate,
  update_share_policy, handle_doc_message, new_connection, connection_closed, io_complete, tick,
}
use samod.Document.Actor.Sync.{add_connection, remove_connection, apply_share_policy}
use samod.Document.Actor.Step.{
  Peers, Checks, is_unknown, check_peer, check_peers, enqueue_share_policy_checks, generate_for,
  generate_each, count_pending, save, step_load, search_over, generate_sync_messages, is_loading,
  send_all, new_peer_states, report_status, is_same_status, doc_status, step_running, step_in, step,
}
use samod.Document.Actor.Input.{
  process_io, and_step, handle_message_of, may_read, connections_of, process, handle_input,
  complete_storage, after_io, decide,
}
use samod.Document.Actor.Keep.{
  AllPeers, handle_sync_message-Kept, apply_share_policy-Kept, apply_each-Kept, after_io-Kept,
}
use samod.Document.Actor.Frame.{Kept, generate_messages-Kept, generate_ready-Kept}

unknown_undecided :
    {am : Automerge} (c : PeerDocConnection am)
    → is_unknown c.share_policy ≡ true
    → share_config c ≡ none
unknown_undecided c h = ground (arith, h)

module _ {am : Automerge} where
  pub complete_storage-peers :
      (task_id : IoTaskId) (result : StorageResult) (turn turn' : Turn am)
      → complete_storage task_id result turn ≡ some turn'
      → turn'.0.peer_connections ≡ turn.0.peer_connections
  complete_storage-peers task_id result (a, out) turn' e =
      elim (Bool-cases (Load.has_task task_id a.load_state)) [
        | inl loads ↦ elim (Option-cases (handle_result task_id result a.load_state)) [
          | inl panics ↦ ground (arith, loads, panics, e)
          | inr (load, f) ↦ ground (arith, loads, f, e)
        ]
        | inr other ↦ elim (Bool-cases (OnDisk.has_task task_id a.on_disk_state)) [
          | inl has ↦ elim (Option-cases (task_complete task_id result a.on_disk_state)) [
            | inl panics ↦ ground (arith, other, has, panics, e)
            | inr (on_disk, f) ↦ ground (arith, other, has, f, e)
          ]
          | inr unknown ↦ ground (arith, other, unknown, e)
        ]
      ]

  pub complete_storage-result :
      (task_id : IoTaskId) (result : StorageResult) (turn turn' : Turn am)
      → complete_storage task_id result turn ≡ some turn'
      → turn'.1 ≡ turn.1
  complete_storage-result task_id result (a, out) turn' e =
      elim (Bool-cases (Load.has_task task_id a.load_state)) [
        | inl loads ↦ elim (Option-cases (handle_result task_id result a.load_state)) [
          | inl panics ↦ ground (arith, loads, panics, e)
          | inr (load, f) ↦ ground (arith, loads, f, e)
        ]
        | inr other ↦ elim (Bool-cases (OnDisk.has_task task_id a.on_disk_state)) [
          | inl has ↦ elim (Option-cases (task_complete task_id result a.on_disk_state)) [
            | inl panics ↦ ground (arith, other, has, panics, e)
            | inr (on_disk, f) ↦ ground (arith, other, has, f, e)
          ]
          | inr unknown ↦ ground (arith, other, unknown, e)
        ]
      ]

  pub add_connection-peers :
      (id : ConnectionId) (peer_id : PeerId) (a a' : DocumentActor am)
      → add_connection id peer_id a ≡ some a'
      → a'.peer_connections ≡ insert id (new am peer_id id) a.peer_connections
  unfolding add_connection
  add_connection-peers id peer_id a a' e = elim (Bool-cases (contains_key id a.peer_connections)) [
    | inl there ↦ ground (arith, there, e)
    | inr fresh ↦ ground (arith, fresh, e)
  ]

module _ {am : Automerge} {P : PeerDocConnection am → Type 0} (kept : Kept P) where
  check_peer-Kept : (c : PeerDocConnection am) (checks : Checks) → P c → P (check_peer c checks).0
  check_peer-Kept c checks p = elim (Bool-cases (is_unknown c.share_policy)) [
    | inl first ↦ rw first (kept.checked c p (unknown_undecided c first))
    | inr later ↦ rw later p
  ]

  check_peers-Kept :
      (peers : Peers am) (checks : Checks)
      → All P (values peers)
      → All P (values (check_peers peers checks).0)
  check_peers-Kept [] checks h = tt
  check_peers-Kept ((id, c) ∷ peers) checks h =
      (check_peer-Kept c checks h.0, check_peers-Kept peers (check_peer c checks).1 h.1)

  generate_for-Kept :
      (now : UnixTimestamp) (doc : am.Doc) (c : PeerDocConnection am) (phase : Phase)
      → P c
      → P (generate_for now doc c phase).1
  generate_for-Kept now doc c (loading l) p = p
  generate_for-Kept now doc c (requesting request) p =
      generate_messages-Kept kept.by_sync now doc c request p
  generate_for-Kept now doc c ready p = generate_ready-Kept kept.by_sync now doc c p

  generate_each-Kept :
      (now : UnixTimestamp) (doc_id : DocumentId) (doc : am.Doc) (peers : Peers am)
      (r : Phase × DocActorResult)
      → All P (values peers)
      → All P (values (generate_each now doc_id doc peers r).0)
  unfolding generate_each
  generate_each-Kept now doc_id doc [] r h = tt
  generate_each-Kept now doc_id doc ((id, c) ∷ peers) (phase, out) h =
      let (msgs, c', phase') = generate_for now doc c phase in
      (
        generate_for-Kept now doc c phase h.0,
        generate_each-Kept now doc_id doc peers (phase', send_all doc_id id msgs out) h.1,
      )

  generate_sync_messages-Kept :
      (now : UnixTimestamp) (turn : Turn am)
      → AllPeers P turn.0
      → AllPeers P (generate_sync_messages now turn).0
  unfolding generate_sync_messages
  generate_sync_messages-Kept now turn h = elim (Bool-cases (is_loading turn.0.phase)) [
    | inl busy ↦ rw busy h
    | inr free ↦ rw free (
        generate_each-Kept now turn.0.document_id turn.0.doc turn.0.peer_connections
          (turn.0.phase, count_pending turn) h)
  ]

  new_peer_states-Kept :
      (peers : Peers am) → All P (values peers) → All P (values (new_peer_states peers).1)
  new_peer_states-Kept [] h = tt
  new_peer_states-Kept ((id, c) ∷ peers) h = (kept.popped c h.0, new_peer_states-Kept peers h.1)

  report_status-Kept : (turn : Turn am) → AllPeers P turn.0 → AllPeers P (report_status turn).0
  report_status-Kept (a, out) h =
      elim (Bool-cases (is_same_status a.last_status_update (doc_status a))) [
        | inl same ↦ rw same h
        | inr new ↦ rw new h
      ]

  step_running-Kept :
      (now : UnixTimestamp) (turn : Turn am)
      → AllPeers P turn.0
      → AllPeers P (step_running now turn).0
  unfolding enqueue_share_policy_checks
  step_running-Kept now (a, out) h =
      let found : DocumentActor am = record a { phase = search_over am a.doc a.phase } in
      let checked : Turn am = enqueue_share_policy_checks (found, out) in
      let saved : Turn am = step_load (save (generate_sync_messages now checked)) in
      let kept_checked : AllPeers P checked.0 =
        check_peers-Kept a.peer_connections (a.check_policy_tasks, out) h in
      let kept_saved : AllPeers P saved.0 = generate_sync_messages-Kept now checked kept_checked in
      new_peer_states-Kept (report_status saved).0.peer_connections
        (report_status-Kept saved kept_saved)

  step_in-Kept :
      (now : UnixTimestamp) (state : RunState) (turn : Turn am)
      → AllPeers P turn.0
      → AllPeers P (step_in now state turn).0
  step_in-Kept now RunState.stopped turn h = h
  step_in-Kept now RunState.stopping turn h = elim (Bool-cases (is_flushed turn.0.on_disk_state)) [
    | inl flushed ↦ rw flushed h
    | inr busy ↦ rw busy h
  ]
  step_in-Kept now RunState.running turn h = step_running-Kept now turn h

  handle_message_of-Kept :
      (now : UnixTimestamp) (id : ConnectionId) (at : UnixTimestamp) (msg : DocMessage)
      (turn : Turn am)
      → AllPeers P turn.0
      → AllPeers P (handle_message_of now id at msg turn).1.0
  handle_message_of-Kept now id at (sync_msg msg) turn h =
      handle_sync_message-Kept kept now id msg at turn h
  handle_message_of-Kept now id at (ephemeral_msg msg) turn h =
      elim (Bool-cases (may_read (get id turn.0.peer_connections))) [
        | inl reads ↦ rw reads h
        | inr denied ↦ rw denied h
      ]

  decide-Kept :
      (now : UnixTimestamp) (task_id : IoTaskId) (config : ShareConfig) (turn : Turn am)
      (conn : Option ConnectionId)
      → AllPeers P turn.0
      → AllPeers P (decide now task_id config turn conn).1.0
  decide-Kept now task_id config turn none h = h
  decide-Kept now task_id config (a, out) (some id) h =
      let a' : DocumentActor am = record a {
        check_policy_tasks = remove task_id a.check_policy_tasks;
      } in
      after_io-Kept kept now (apply_share_policy now id config (a', out))
        (apply_share_policy-Kept kept now id config (a', out) h)

  pub add_connection-Kept :
      (id : ConnectionId) (peer_id : PeerId) (a a' : DocumentActor am)
      → add_connection id peer_id a ≡ some a'
      → AllPeers P a
      → AllPeers P a'
  unfolding add_connection
  add_connection-Kept id peer_id a a' e h =
      subst (λ peers. All P (values peers)) (sym (add_connection-peers id peer_id a a' e))
        (insert-All P id (new am peer_id id) a.peer_connections (kept.of_new peer_id id) h)

  process_io-Kept :
      (now : UnixTimestamp) (task_id : IoTaskId) (result : DocumentIoResult) (turn : Turn am)
      (r : Bool × Turn am)
      → process_io now task_id result turn ≡ some r
      → AllPeers P turn.0
      → AllPeers P r.1.0
  process_io-Kept now task_id (DocumentIoResult.storage result) turn r e h =
      let (t, f, g) =
        bind_some (complete_storage task_id result turn) (λ t. some (true, after_io now t)) r e in
      subst (λ r'. AllPeers P r'.1.0) (some_cancel g)
        (after_io-Kept kept now t (
          subst (λ peers. All P (values peers))
            (sym (complete_storage-peers task_id result turn t f)) h))
  process_io-Kept now task_id (DocumentIoResult.check_share_policy config) turn r e h =
      subst (λ r'. AllPeers P r'.1.0) (some_cancel e)
        (decide-Kept now task_id config turn (get task_id turn.0.check_policy_tasks) h)

  and_step-Kept :
      (now : UnixTimestamp) (r : Bool × Turn am) → AllPeers P r.1.0 → AllPeers P (and_step now r).0
  unfolding step
  and_step-Kept now (true, turn) h = step_in-Kept now turn.0.run_state turn h
  and_step-Kept now (false, turn) h = h

  process-Kept :
      (now : UnixTimestamp) (input : ActorInput) (turn : Turn am) (r : Bool × Turn am)
      → process now input turn ≡ some r
      → AllPeers P turn.0
      → AllPeers P r.1.0
  unfolding process remove_connection
  process-Kept now (update_share_policy peer_id config) (a, out) r e h =
      subst (λ r'. AllPeers P r'.1.0) (some_cancel e)
        (apply_each-Kept kept now config ids
          (record a { check_policy_tasks = retain_tasks ids a.check_policy_tasks }, out) h)
    where
      ids : List ConnectionId
      ids = connections_of peer_id a.peer_connections
  process-Kept now terminate turn r e h = subst (λ r'. AllPeers P r'.1.0) (some_cancel e) h
  process-Kept now (handle_doc_message id msg at) turn r e h =
      subst (λ r'. AllPeers P r'.1.0) (some_cancel e) (handle_message_of-Kept now id at msg turn h)
  process-Kept now (new_connection id peer_id) turn r e h =
      let (a', f, g) =
        bind_some (add_connection id peer_id turn.0) (λ a'. some (true, (a', turn.1))) r e in
      subst (λ r'. AllPeers P r'.1.0) (some_cancel g) (add_connection-Kept id peer_id turn.0 a' f h)
  process-Kept now (connection_closed id) turn r e h =
      subst (λ r'. AllPeers P r'.1.0) (some_cancel e) (remove-All P id turn.0.peer_connections h)
  process-Kept now (io_complete result) turn r e h =
      process_io-Kept now result.task_id result.payload turn r e h
  process-Kept now tick turn r e h = subst (λ r'. AllPeers P r'.1.0) (some_cancel e) h

  pub step-Kept :
      (now : UnixTimestamp) (turn : Turn am) → AllPeers P turn.0 → AllPeers P (step now turn).0
  unfolding step
  step-Kept now turn h = step_in-Kept now turn.0.run_state turn h

  pub handle_input-Kept :
      (now : UnixTimestamp) (input : ActorInput) (turn turn' : Turn am)
      → handle_input now input turn ≡ some turn'
      → AllPeers P turn.0
      → AllPeers P turn'.0
  unfolding handle_input step
  handle_input-Kept now input turn turn' e h =
      let (r, f, g) = bind_some (process now input turn) (λ r. some (and_step now r)) turn' e in
      subst (λ t. AllPeers P t.0) (some_cancel g)
        (and_step-Kept now r (process-Kept now input turn r f h))
