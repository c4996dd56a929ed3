-- ===== src/Document/Actor/Step.antt =====
-- The step that ends each input of a document actor:
-- samod-core/src/actors/document/document_actor.rs, `step` and what it calls.
use samod.Prelude.{
  ℕ, ◌+◌, Bool, true, false, ◌&&◌, Option, none, some, List, [], ◌∷◌, ◌++◌, map, ◌==◌, nat_eq,
  if◌then◌else◌,
}
use samod.Prelude.Lists.{length, is_empty, all}
use samod.Prelude.Map.{Map, get, insert}
use samod.Network.{ConnectionId, DocumentId, IoTaskId, UnixTimestamp, PeerDocState}
use samod.Messages.{SyncMessage, DocSearchPhase, PeerRequestState}
use samod.Hub.State.{RunState}
use samod.Document.Io.{DocumentIoTask, map_task}
use samod.Document.Library.{Automerge}
use samod.Document.Results.{
  DocActorResult, generated, send_sync, send_terminated, update_search_state,
  emit_peer_state_changes, check_share_policy,
}
use samod.Document.OnDisk.{is_flushed, save_new_changes}
use samod.Document.Load
use samod.Document.Peer.{PeerDocConnection, SharePolicyState, message_bytes, pop}
use samod.Document.Request.{RequestOutcome, outcome, peer_states}
use samod.Document.Request.Messages.{generate_messages}
use samod.Document.Phases.{pending_msg_count, generate_ready}
use samod.Document.Actor.{DocumentActor, Turn, Phase, loading, requesting, ready}
use samod.Document.Actor.Sync.{note_message}

abbrev state_beq : PeerRequestState → PeerRequestState → Bool
state_beq PeerRequestState.blocked_by_policy PeerRequestState.blocked_by_policy = true
state_beq PeerRequestState.requested PeerRequestState.requested = true
state_beq PeerRequestState.unavailable PeerRequestState.unavailable = true
state_beq PeerRequestState.syncing PeerRequestState.syncing = true
state_beq PeerRequestState.available PeerRequestState.available = true
state_beq _ _ = false

abbrev has_state : Map ConnectionId PeerRequestState → ConnectionId × PeerRequestState → Bool
has_state states (id, state) = elim (get id states) [
  | none ↦ false
  | some other ↦ state_beq state other
]

-- `HashMap`'s equality: as many entries, and each in the other.
abbrev states_beq : Map ConnectionId PeerRequestState → Map ConnectionId PeerRequestState → Bool
states_beq states others = length states == length others && all (has_state others) states

abbrev phase_beq : DocSearchPhase → DocSearchPhase → Bool
phase_beq DocSearchPhase.loading DocSearchPhase.loading = true
phase_beq (DocSearchPhase.searching states) (DocSearchPhase.searching others) =
    states_beq states others
phase_beq DocSearchPhase.ready DocSearchPhase.ready = true
phase_beq _ _ = false

abbrev pub is_same_status : Option DocSearchPhase → DocSearchPhase → Bool
is_same_status none status = false
is_same_status (some last) status = phase_beq status last

-- What `for (msg, duration) in generated` sends.
abbrev pub send_all : DocumentId → ConnectionId → List SyncMessage → DocActorResult → DocActorResult
send_all doc_id id [] out = out
send_all doc_id id (msg ∷ msgs) out =
    send_all doc_id id msgs
      (send_sync (note_message id generated (message_bytes msg) out) id doc_id msg)

abbrev pub Peers : Automerge → Type 0
Peers am = Map ConnectionId (PeerDocConnection am)

-- The tasks of the policy checks, and the result.
abbrev pub Checks : Type 0
Checks = Map IoTaskId ConnectionId × DocActorResult

abbrev pub is_unknown : SharePolicyState → Bool
is_unknown SharePolicyState.unknown = true
is_unknown _ = false

abbrev held_back : Phase → ℕ
held_back (loading l) = pending_msg_count l
held_back _ = 0

abbrev pub is_loading : Phase → Bool
is_loading (loading l) = true
is_loading _ = false

abbrev pub with_news :
    ConnectionId
    → Option PeerDocState
    → Map ConnectionId PeerDocState
    → Map ConnectionId PeerDocState
with_news id none news = news
with_news id (some state) news = (id, state) ∷ news

-- A search that has found the document is over.
abbrev pub settle_phase : RequestOutcome → Phase → Phase
settle_phase RequestOutcome.found phase = ready
settle_phase _ phase = phase

abbrev pub search_over : (am : Automerge) → am.Doc → Phase → Phase
search_over am doc (requesting request) = settle_phase (outcome am doc request) (requesting request)
search_over am doc phase = phase

module _ {am : Automerge} where
  abbrev pub check_peer : PeerDocConnection am → Checks → PeerDocConnection am × Checks
  check_peer c (tasks, out) =
      let (task_id, out') = check_share_policy out c.peer_id in
      if is_unknown c.share_policy
      then (
        record c { share_policy = SharePolicyState.loading },
        (insert task_id c.connection_id tasks, out'),
      )
      else (c, (tasks, out))

  abbrev pub check_peers : Peers am → Checks → Peers am × Checks
  check_peers [] checks = ([], checks)
  check_peers ((id, c) ∷ peers) checks =
      let (c', checks') = check_peer c checks in
      let (peers', checks'') = check_peers peers checks' in ((id, c') ∷ peers', checks'')

  unfoldable pub enqueue_share_policy_checks : Turn am → Turn am
  enqueue_share_policy_checks (a, out) =
      let (peers, (tasks, out')) = check_peers a.peer_connections (a.check_policy_tasks, out) in
      (record a { peer_connections = peers; check_policy_tasks = tasks }, out')

  abbrev pub generate_for :
      UnixTimestamp
      → am.Doc
      → PeerDocConnection am
      → Phase
      → List SyncMessage × PeerDocConnection am × Phase
  generate_for now doc c (loading l) = ([], c, loading l)
  generate_for now doc c (requesting request) =
      let (msgs, c', request') = generate_messages now doc c request in
      (msgs, c', requesting request')
  generate_for now doc c ready = let (msgs, c') = generate_ready now doc c in (msgs, c', ready)

  unfoldable pub generate_each :
      UnixTimestamp
      → DocumentId
      → am.Doc
      → Peers am
      → Phase × DocActorResult
      → Peers am × Phase × DocActorResult
  generate_each now doc_id doc [] (phase, out) = ([], phase, out)
  generate_each now doc_id doc ((id, c) ∷ peers) (phase, out) =
      let (msgs, c', phase') = generate_for now doc c phase in
      let (peers', phase'', out') =
        generate_each now doc_id doc peers (phase', send_all doc_id id msgs out) in
      ((id, c') ∷ peers', phase'', out')

  abbrev waiting : Peers am → ℕ
  waiting [] = 0
  waiting ((id, c) ∷ peers) = length c.pending_sync_messages + waiting peers

  abbrev pub count_pending : Turn am → DocActorResult
  count_pending (a, out) = record out {
    pending_sync_messages = waiting a.peer_connections + held_back a.phase;
  }

  unfoldable pub generate_sync_messages : UnixTimestamp → Turn am → Turn am
  generate_sync_messages now (a, out) =
      let counted = count_pending (a, out) in
      let (peers, phase, out') =
        generate_each now a.document_id a.doc a.peer_connections (a.phase, counted) in
      if is_loading a.phase
      then (a, counted)
      else (record a { peer_connections = peers; phase = phase }, out')

  abbrev pub doc_status : DocumentActor am → DocSearchPhase
  doc_status a = elim a.phase [
    | loading l ↦ DocSearchPhase.loading
    | requesting request ↦ DocSearchPhase.searching (peer_states request)
    | ready ↦ DocSearchPhase.ready
  ]

  -- The states that have changed since they were last reported, and the connections without the mark.
  abbrev pub new_peer_states : Peers am → Map ConnectionId PeerDocState × Peers am
  new_peer_states [] = ([], [])
  new_peer_states ((id, c) ∷ peers) =
      let (state, c') = pop c in
      let (news, peers') = new_peer_states peers in (with_news id state news, (id, c') ∷ peers')

  abbrev pub report_status : Turn am → Turn am
  report_status (a, out) =
      let status = doc_status a in
      if is_same_status a.last_status_update status
      then (a, out)
      else (record a { last_status_update = some status }, update_search_state out status)

  abbrev pub report_peers : Turn am → Turn am
  report_peers (a, out) =
      let (news, peers) = new_peer_states a.peer_connections in
      (
        record a { peer_connections = peers },
        if is_empty news then out else emit_peer_state_changes out news,
      )

  abbrev pub save : Turn am → Turn am
  save (a, out) =
      let (on_disk, out') = save_new_changes am a.document_id a.doc (a.on_disk_state, out) in
      (record a { on_disk_state = on_disk }, out')

  abbrev pub step_load : Turn am → Turn am
  step_load (a, out) =
      let (tasks, next, load) = Load.step am.document_text out.next_task_id a.load_state in
      (
        record a { load_state = load },
        record out {
          io_tasks = out.io_tasks ++ map (map_task DocumentIoTask.storage) tasks;
          next_task_id = next;
        },
      )

  abbrev pub step_running : UnixTimestamp → Turn am → Turn am
  step_running now (a, out) =
      let found : DocumentActor am = record a { phase = search_over am a.doc a.phase } in
      let checked = enqueue_share_policy_checks (found, out) in
      let saved = step_load (save (generate_sync_messages now checked)) in
      report_peers (report_status saved)

  abbrev pub step_stopping : Turn am → Turn am
  step_stopping (a, out) =
      if is_flushed a.on_disk_state
      then (
        record a { run_state = RunState.stopped },
        record (send_terminated out) { stopped = true },
      )
      else (a, out)

  abbrev pub step_in : UnixTimestamp → RunState → Turn am → Turn am
  step_in now RunState.stopped turn = turn
  step_in now RunState.stopping turn = step_stopping turn
  step_in now RunState.running turn = step_running now turn

  unfoldable pub step : UnixTimestamp → Turn am → Turn am
  step now (a, out) = step_in now a.run_state (a, out)
