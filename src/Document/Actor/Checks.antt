-- ===== src/Document/Actor/Checks.antt =====
-- Whose sharing a document actor asks about: samod-core/src/actors/document/document_actor.rs.
use samod.Prelude.{
  ℕ, ltb, Bool, true, false, Option, List, [], ◌∷◌, ◌≡◌, refl, map, nat_eq, string_eq, list_eq,
  subst, sym, ◌∙◌, if_both, arith,
}
use samod.Prelude.Lists.{All, All-append, All-snoc, All-mono, contains, is_empty}
use samod.Network.{ConnectionId, DocumentId, PeerId, UnixTimestamp, PeerDocState}
use samod.Messages.{SyncMessage}
use samod.Storage.{StorageKey}
use samod.Hub.State.{RunState}
use samod.Document.Io.{IoTask, DocumentIoTask, StorageTask, map_task}
use samod.Document.Library.{Automerge}
use samod.Document.Results.{DocActorResult, SyncDirection, generated, send_sync}
use samod.Document.Peer.{PeerDocConnection, message_bytes, pop}
use samod.Document.Peer.Same.{received-Same, prepared-Same, generate_upto-Same}
use samod.Document.OnDisk
use samod.Document.OnDisk.{
  is_flushed, drain_deletions, put_changes, put_new, save_new_changes, track_delete, track_put,
  change_key, is_compacting, eligible_for_compaction, saved_heads,
}
use samod.Document.Actor.{DocumentActor, Turn, Phase, loading, requesting, ready}
use samod.Document.Actor.Sync.{note_message}
use samod.Document.Actor.Step.{
  Peers, Checks, check_peer, check_peers, enqueue_share_policy_checks, generate_for, generate_each,
  generate_sync_messages, send_all, count_pending, is_loading, is_unknown, new_peer_states, save,
  step_load, search_over, report_status, report_peers, step_running, step_in, step, is_same_status,
  doc_status,
}
use samod.Document.Actor.Input.{and_step}
use samod.Document.Actor.Frame.{KeptBySync, generate_messages-Kept, generate_ready-Kept}

-- The peers of the connections, one for each.
abbrev pub peer_ids : {am : Automerge} → Peers am → List PeerId
peer_ids [] = []
peer_ids ((id, c) ∷ peers) = c.peer_id ∷ peer_ids peers

abbrev pub AsksOf : List PeerId → DocumentIoTask → Type 0
AsksOf ids (DocumentIoTask.storage task) = Unit
AsksOf ids (DocumentIoTask.check_share_policy peer_id) = contains ids peer_id ≡ true

-- If the task asks about a peer, it is one of these.
abbrev pub AsksKnown : List PeerId → IoTask DocumentIoTask → Type 0
AsksKnown ids task = AsksOf ids task.action

abbrev pub AllKnown : List PeerId → DocActorResult → Type 0
AllKnown ids out = All (AsksKnown ids) out.io_tasks

drain-AllKnown :
    (ids : List PeerId) (deletions : List StorageKey) (turn : OnDisk.Turn)
    → AllKnown ids turn.1
    → AllKnown ids (drain_deletions deletions turn).1
drain-AllKnown ids [] turn h = h
drain-AllKnown ids (deletion ∷ deletions) turn h =
    drain-AllKnown ids deletions (track_delete deletion turn)
      (All-snoc (AsksKnown ids) turn.1.io_tasks h tt)

storage-AllKnown :
    (ids : List PeerId) (tasks : List (IoTask StorageTask))
    → All (AsksKnown ids) (map (map_task DocumentIoTask.storage) tasks)
storage-AllKnown ids [] = tt
storage-AllKnown ids (task ∷ tasks) = (tt, storage-AllKnown ids tasks)

pub note_message-tasks :
    (id : ConnectionId) (direction : SyncDirection) (bytes : ℕ) (out : DocActorResult)
    → (note_message id direction bytes out).io_tasks ≡ out.io_tasks
note_message-tasks id direction bytes out =
    if_both (λ (o : DocActorResult). o.io_tasks ≡ out.io_tasks) (ltb 0 bytes) refl refl

send_all-tasks :
    (doc_id : DocumentId) (id : ConnectionId) (msgs : List SyncMessage) (out : DocActorResult)
    → (send_all doc_id id msgs out).io_tasks ≡ out.io_tasks
send_all-tasks doc_id id [] out = refl
send_all-tasks doc_id id (msg ∷ msgs) out =
    send_all-tasks doc_id id msgs
      (send_sync (note_message id generated (message_bytes msg) out) id doc_id msg)
    ∙ note_message-tasks id generated (message_bytes msg) out

put_changes-AllKnown :
    (am : Automerge) (ids : List PeerId) (doc_id : DocumentId) (changes : List am.Change)
    (turn : OnDisk.Turn)
    → AllKnown ids turn.1
    → AllKnown ids (put_changes am doc_id changes turn).1
put_changes-AllKnown am ids doc_id [] turn h = h
put_changes-AllKnown am ids doc_id (change ∷ changes) turn h =
    put_changes-AllKnown am ids doc_id changes
      (track_put (change_key am doc_id change) (am.raw_bytes change) turn)
      (All-snoc (AsksKnown ids) turn.1.io_tasks h tt)

All-own : (ids : List PeerId) → All (λ peer_id. contains ids peer_id ≡ true) ids
All-own [] = tt
All-own (id ∷ ids) = (
  ground (arith, string_eq.same_iff id id),
  All-mono (λ peer_id. contains ids peer_id ≡ true) (λ peer_id. contains (id ∷ ids) peer_id ≡ true)
      (λ peer_id h. ground (arith, h)) ids (All-own ids),
)

module _ {am : Automerge} where
  save-AllKnown :
      (ids : List PeerId) (turn : Turn am) → AllKnown ids turn.1 → AllKnown ids (save turn).1
  unfolding save_new_changes
  save-AllKnown ids (a, out) h =
      drain-AllKnown ids (put_new am a.document_id a.doc (a.on_disk_state, out)).0.deletions
        (put_new am a.document_id a.doc (a.on_disk_state, out))
        (if_both (λ (t : OnDisk.Turn). AllKnown ids t.1) (is_compacting am a.on_disk_state)
          incremental
          (if_both (λ (t : OnDisk.Turn). AllKnown ids t.1)
            (eligible_for_compaction am changes a.on_disk_state)
            (All-snoc (AsksKnown ids) out.io_tasks h tt) incremental))
    where
      changes : List am.Change
      changes = am.get_changes a.doc (saved_heads a.on_disk_state.last_saved_heads)

      incremental : AllKnown ids (put_changes am a.document_id changes (a.on_disk_state, out)).1
      incremental = put_changes-AllKnown am ids a.document_id changes (a.on_disk_state, out) h

  same_peer-KeptBySync :
      (peer_id : PeerId) → KeptBySync (λ (c : PeerDocConnection am). c.peer_id ≡ peer_id)
  same_peer-KeptBySync peer_id = record {
    received = λ now doc c msg h. (received-Same now doc c msg).2 ∙ h;
    prepared = λ c h. (prepared-Same c).2 ∙ h;
    generated = λ now doc c h. (generate_upto-Same 2 now doc c).2 ∙ h;
  }

  generate_for-peer :
      (now : UnixTimestamp) (doc : am.Doc) (c : PeerDocConnection am) (phase : Phase)
      → (generate_for now doc c phase).1.peer_id ≡ c.peer_id
  generate_for-peer now doc c (loading l) = refl
  generate_for-peer now doc c (requesting request) =
      generate_messages-Kept (same_peer-KeptBySync c.peer_id) now doc c request refl
  generate_for-peer now doc c ready =
      generate_ready-Kept (same_peer-KeptBySync c.peer_id) now doc c refl

  generate_each-peers :
      (now : UnixTimestamp) (doc_id : DocumentId) (doc : am.Doc) (peers : Peers am)
      (r : Phase × DocActorResult)
      → let (peers', phase, out) = generate_each now doc_id doc peers r in
        (peer_ids peers' ≡ peer_ids peers) × (out.io_tasks ≡ r.1.io_tasks)
  unfolding generate_each
  generate_each-peers now doc_id doc [] r = (refl, refl)
  generate_each-peers now doc_id doc ((id, c) ∷ peers) (phase, out) =
      let (msgs, c', phase') = generate_for now doc c phase in
      let (same, tasks) =
        generate_each-peers now doc_id doc peers (phase', send_all doc_id id msgs out) in
      (cc (generate_for-peer now doc c phase, same), tasks ∙ send_all-tasks doc_id id msgs out)

  generate_sync_messages-peers :
      (now : UnixTimestamp) (turn : Turn am)
      → let r : Turn am = generate_sync_messages now turn in
        (peer_ids r.0.peer_connections ≡ peer_ids turn.0.peer_connections)
        × (r.1.io_tasks ≡ turn.1.io_tasks)
  unfolding generate_sync_messages
  generate_sync_messages-peers now (a, out) =
      if_both
        (λ (r : Turn am).
          (peer_ids r.0.peer_connections ≡ peer_ids a.peer_connections)
          × (r.1.io_tasks ≡ out.io_tasks))
        (is_loading a.phase) (refl, refl)
        (generate_each-peers now a.document_id a.doc a.peer_connections
          (a.phase, count_pending (a, out)))

  check_peers-peers :
      (peers : Peers am) (checks : Checks) → peer_ids (check_peers peers checks).0 ≡ peer_ids peers
  check_peers-peers [] checks = refl
  check_peers-peers ((id, c) ∷ peers) checks =
      let same : (check_peer c checks).0.peer_id ≡ c.peer_id =
        if_both (λ (r : PeerDocConnection am × Checks). r.0.peer_id ≡ c.peer_id)
          (is_unknown c.share_policy) refl refl in
      cc (same, check_peers-peers peers (check_peer c checks).1)

  check_peers-AllKnown :
      (ids : List PeerId) (peers : Peers am) (checks : Checks)
      → All (λ peer_id. contains ids peer_id ≡ true) (peer_ids peers)
      → AllKnown ids checks.1
      → AllKnown ids (check_peers peers checks).1.1
  check_peers-AllKnown ids [] checks own h = h
  check_peers-AllKnown ids ((id, c) ∷ peers) checks own h =
      check_peers-AllKnown ids peers (check_peer c checks).1 own.1 (
        if_both (λ (r : PeerDocConnection am × Checks). AllKnown ids r.1.1)
          (is_unknown c.share_policy) (All-snoc (AsksKnown ids) checks.1.io_tasks h own.0) h)

  new_peer_states-peers : (peers : Peers am) → peer_ids (new_peer_states peers).1 ≡ peer_ids peers
  new_peer_states-peers [] = refl
  new_peer_states-peers ((id, c) ∷ peers) =
      let popped : (pop c).1.peer_id ≡ c.peer_id =
        if_both (λ (r : Option PeerDocState × PeerDocConnection am). r.1.peer_id ≡ c.peer_id)
          c.dirty refl refl in
      cc (popped, new_peer_states-peers peers)

  report-peers :
      (turn : Turn am)
      → let r : Turn am = report_peers (report_status turn) in
        (peer_ids r.0.peer_connections ≡ peer_ids turn.0.peer_connections)
        × (r.1.io_tasks ≡ turn.1.io_tasks)
  report-peers (a, out) =
      let (same, tasks) = status in
      (new_peer_states-peers (report_status (a, out)).0.peer_connections ∙ same, reported ∙ tasks)
    where
      status :
          (peer_ids (report_status (a, out)).0.peer_connections ≡ peer_ids a.peer_connections)
          × ((report_status (a, out)).1.io_tasks ≡ out.io_tasks)
      status =
          if_both
            (λ (r : Turn am).
              (peer_ids r.0.peer_connections ≡ peer_ids a.peer_connections)
              × (r.1.io_tasks ≡ out.io_tasks))
            (is_same_status a.last_status_update (doc_status a)) (refl, refl) (refl, refl)

      reported :
          (report_peers (report_status (a, out))).1.io_tasks ≡ (report_status (a, out)).1.io_tasks
      reported =
          if_both (λ (o : DocActorResult). o.io_tasks ≡ (report_status (a, out)).1.io_tasks)
            (is_empty (new_peer_states (report_status (a, out)).0.peer_connections).0) refl refl

  step_running-AllKnown :
      (now : UnixTimestamp) (turn : Turn am)
      → AllKnown (peer_ids turn.0.peer_connections) turn.1
      → let r : Turn am = step_running now turn in AllKnown (peer_ids r.0.peer_connections) r.1
  unfolding enqueue_share_policy_checks
  step_running-AllKnown now (a, out) known =
      let ids = peer_ids a.peer_connections in
      let found : DocumentActor am = record a { phase = search_over am a.doc a.phase } in
      let checked : Turn am = enqueue_share_policy_checks (found, out) in
      let sent : Turn am = generate_sync_messages now checked in
      let loaded : Turn am = step_load (save sent) in
      let (sent_same, sent_tasks) = generate_sync_messages-peers now checked in
      let (same, tasks) = report-peers loaded in
      let asked : AllKnown ids checked.1 =
        check_peers-AllKnown ids a.peer_connections (a.check_policy_tasks, out) (All-own ids)
          known in
      let kept : AllKnown ids loaded.1 =
        All-append (AsksKnown ids) (save sent).1.io_tasks _
          (save-AllKnown ids sent (subst (All (AsksKnown ids)) (sym sent_tasks) asked))
          (storage-AllKnown ids _) in
      let final : peer_ids (report_peers (report_status loaded)).0.peer_connections ≡ ids =
        same ∙ sent_same ∙ check_peers-peers a.peer_connections (a.check_policy_tasks, out) in
      subst (λ ids'. AllKnown ids' (report_peers (report_status loaded)).1) (sym final)
        (subst (All (AsksKnown ids)) (sym tasks) kept)

  step_in-AllKnown :
      (now : UnixTimestamp) (state : RunState) (turn : Turn am)
      → AllKnown (peer_ids turn.0.peer_connections) turn.1
      → let r : Turn am = step_in now state turn in AllKnown (peer_ids r.0.peer_connections) r.1
  step_in-AllKnown now RunState.stopped (a, out) known = known
  step_in-AllKnown now RunState.stopping (a, out) known =
      if_both (λ (r : Turn am). AllKnown (peer_ids r.0.peer_connections) r.1)
        (is_flushed a.on_disk_state) known known
  step_in-AllKnown now RunState.running turn known = step_running-AllKnown now turn known

  pub and_step-AllKnown :
      (now : UnixTimestamp) (r : Bool × Turn am)
      → AllKnown (peer_ids r.1.0.peer_connections) r.1.1
      → let t : Turn am = and_step now r in AllKnown (peer_ids t.0.peer_connections) t.1
  unfolding step
  and_step-AllKnown now (true, turn) known = step_in-AllKnown now turn.0.run_state turn known
  and_step-AllKnown now (false, (a, out)) known = known
