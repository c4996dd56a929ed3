-- ===== src/Document/Actor/Disclosure.antt =====
-- Who is sent a document's data in a step: samod-core/src/actors/document/document_actor.rs, `step`.
use samod.Prelude.{true, List, [], ◌∷◌, ◌≡◌, refl, nat_eq, arith, subst, sym, ◌∙◌, if_both}
use samod.Prelude.Lists.{is_empty, All-filter, All, All-snoc, All-mono, filter}
use samod.Network.{ConnectionId, DocumentId, UnixTimestamp}
use samod.Messages.{
  DocToHubMsg, send_sync_message, doc_search_changed, peer_states_changed, broadcast, disconnect,
  terminated,
}
use samod.Document.Library.{Automerge}
use samod.Document.Results.{not_search_change, not_peer_change, DocActorResult}
use samod.Document.Peer.{PeerDocConnection, SharePolicyState, config_of, is_some_and}
use samod.Share
use samod.Hub.State.{RunState}
use samod.Storage.{StorageKey}
use samod.Document.OnDisk
use samod.Document.OnDisk.{
  is_flushed, put_changes, track_put, track_delete, change_key, drain_deletions, put_new,
  save_new_changes, is_compacting, eligible_for_compaction, saved_heads,
}
use samod.Document.Actor.{DocumentActor, Turn, Phase}
use samod.Document.Actor.Step.{
  Checks, check_peers, check_peer, is_unknown, generate_sync_messages, Peers, new_peer_states, save,
  step_load, report_status, report_peers, is_same_status, doc_status, is_loading, count_pending,
  search_over, enqueue_share_policy_checks, step_running, step_in, step,
}
use samod.Document.Actor.Access.{
  Policies, policies, MayRead, IsAllowed, generate_each-policies, generate_each-IsAllowed,
  new_peer_states-policies,
}

drain-messages :
    (deletions : List StorageKey) (turn : OnDisk.Turn)
    → (drain_deletions deletions turn).1.outgoing_messages ≡ turn.1.outgoing_messages
drain-messages [] turn = refl
drain-messages (deletion ∷ deletions) turn = drain-messages deletions (track_delete deletion turn)

put_changes-messages :
    (am : Automerge) (doc_id : DocumentId) (changes : List am.Change) (turn : OnDisk.Turn)
    → (put_changes am doc_id changes turn).1.outgoing_messages ≡ turn.1.outgoing_messages
put_changes-messages am doc_id [] turn = refl
put_changes-messages am doc_id (change ∷ changes) turn =
    put_changes-messages am doc_id changes
      (track_put (change_key am doc_id change) (am.raw_bytes change) turn)

-- A message that carries no document's data.
abbrev pub IsDataless : DocToHubMsg → Type 0
IsDataless = IsAllowed []

pub dataless-IsAllowed :
    (decisions : Policies) (msg : DocToHubMsg) → IsDataless msg → IsAllowed decisions msg
dataless-IsAllowed decisions (send_sync_message id doc_id msg) h =
    λ carries. ground (arith, h carries)
dataless-IsAllowed decisions (doc_search_changed phase) h = tt
dataless-IsAllowed decisions (peer_states_changed states) h = tt
dataless-IsAllowed decisions (broadcast connections msg) h = tt
dataless-IsAllowed decisions (disconnect id reason) h = tt
dataless-IsAllowed decisions terminated h = tt

-- What a connection's own decision says it may do, it may.
abbrev IsOwn : Policies → ConnectionId × SharePolicyState → Type 0
IsOwn decisions (id, policy) =
    is_some_and (config_of policy) Share.can_read ≡ true → MayRead decisions id

IsOwn-MayRead : (decisions : Policies) → All (IsOwn decisions) decisions
IsOwn-MayRead [] = tt
IsOwn-MayRead ((id, policy) ∷ decisions) = (
  λ may. ground (arith, may, nat_eq.same_iff id id),
  All-mono (IsOwn decisions) (IsOwn ((id, policy) ∷ decisions)) (λ x h may. ground (arith, h may))
      decisions (IsOwn-MayRead decisions),
)

module _ {am : Automerge} where
  -- Saving sends no message.
  save-messages : (turn : Turn am) → (save turn).1.outgoing_messages ≡ turn.1.outgoing_messages
  unfolding save_new_changes
  save-messages (a, out) =
      drain-messages (put_new am a.document_id a.doc (a.on_disk_state, out)).0.deletions
        (put_new am a.document_id a.doc (a.on_disk_state, out))
      ∙ if_both (λ (t : OnDisk.Turn). t.1.outgoing_messages ≡ out.outgoing_messages)
          (is_compacting am a.on_disk_state) incremental
          (if_both (λ (t : OnDisk.Turn). t.1.outgoing_messages ≡ out.outgoing_messages)
            (eligible_for_compaction am changes a.on_disk_state) refl incremental)
    where
      changes : List am.Change
      changes = am.get_changes a.doc (saved_heads a.on_disk_state.last_saved_heads)

      incremental :
          (put_changes am a.document_id changes (a.on_disk_state, out)).1.outgoing_messages
          ≡ out.outgoing_messages
      incremental = put_changes-messages am a.document_id changes (a.on_disk_state, out)

  report_status-IsAllowed :
      (decisions : Policies) (turn : Turn am)
      → All (IsAllowed decisions) turn.1.outgoing_messages
      → All (IsAllowed decisions) (report_status turn).1.outgoing_messages
  report_status-IsAllowed decisions (a, out) h =
      if_both (λ (t : Turn am). All (IsAllowed decisions) t.1.outgoing_messages)
        (is_same_status a.last_status_update (doc_status a)) h
        (All-snoc (IsAllowed decisions) (filter not_search_change out.outgoing_messages)
          (All-filter (IsAllowed decisions) not_search_change out.outgoing_messages h) tt)

  report_status-policies :
      (turn : Turn am)
      → policies (report_status turn).0.peer_connections ≡ policies turn.0.peer_connections
  report_status-policies (a, out) =
      if_both (λ (t : Turn am). policies t.0.peer_connections ≡ policies a.peer_connections)
        (is_same_status a.last_status_update (doc_status a)) refl refl

  report_peers-IsAllowed :
      (decisions : Policies) (turn : Turn am)
      → All (IsAllowed decisions) turn.1.outgoing_messages
      → All (IsAllowed decisions) (report_peers turn).1.outgoing_messages
  report_peers-IsAllowed decisions (a, out) h =
      if_both (λ (o : DocActorResult). All (IsAllowed decisions) o.outgoing_messages)
        (is_empty (new_peer_states a.peer_connections).0) h
        (All-snoc (IsAllowed decisions) (filter not_peer_change out.outgoing_messages)
          (All-filter (IsAllowed decisions) not_peer_change out.outgoing_messages h) tt)

  generate_sync_messages-IsAllowed :
      (now : UnixTimestamp) (turn : Turn am)
      → All IsDataless turn.1.outgoing_messages
      → let r : Turn am = generate_sync_messages now turn in
        (policies r.0.peer_connections ≡ policies turn.0.peer_connections)
        × All (IsAllowed (policies turn.0.peer_connections)) r.1.outgoing_messages
  unfolding generate_sync_messages
  generate_sync_messages-IsAllowed now (a, out) h =
      let decisions = policies a.peer_connections in
      let start : Phase × DocActorResult = (a.phase, count_pending (a, out)) in
      let allowed : All (IsAllowed decisions) out.outgoing_messages =
        All-mono IsDataless (IsAllowed decisions) (dataless-IsAllowed decisions)
          out.outgoing_messages h in
      if_both
        (λ (r : Turn am).
          (policies r.0.peer_connections ≡ decisions)
          × All (IsAllowed decisions) r.1.outgoing_messages)
        (is_loading a.phase) (refl, allowed)
        (
          generate_each-policies now a.document_id a.doc a.peer_connections start,
          generate_each-IsAllowed now a.document_id a.doc decisions a.peer_connections start
              (IsOwn-MayRead decisions) allowed,
        )

  check_peers-messages :
      (peers : Peers am) (checks : Checks)
      → (check_peers peers checks).1.1.outgoing_messages ≡ checks.1.outgoing_messages
  check_peers-messages [] checks = refl
  check_peers-messages ((id, c) ∷ peers) checks =
      check_peers-messages peers (check_peer c checks).1
      ∙ if_both
          (λ (r : PeerDocConnection am × Checks).
            r.1.1.outgoing_messages ≡ checks.1.outgoing_messages)
          (is_unknown c.share_policy) refl refl

  step_running-IsAllowed :
      (now : UnixTimestamp) (turn : Turn am)
      → All IsDataless turn.1.outgoing_messages
      → let r : Turn am = step_running now turn in
        All (IsAllowed (policies r.0.peer_connections)) r.1.outgoing_messages
  unfolding enqueue_share_policy_checks
  step_running-IsAllowed now (a, out) h =
      let found : DocumentActor am = record a { phase = search_over am a.doc a.phase } in
      let checked : Turn am = enqueue_share_policy_checks (found, out) in
      let sent : Turn am = generate_sync_messages now checked in
      let (same, allowed) = generate_sync_messages-IsAllowed now checked (
        subst (All IsDataless)
          (sym (check_peers-messages a.peer_connections (a.check_policy_tasks, out))) h) in
      let loaded : Turn am = step_load (save sent) in
      let reported : Turn am = report_status loaded in
      let decisions = policies checked.0.peer_connections in
      let final : policies (report_peers reported).0.peer_connections ≡ decisions =
        new_peer_states-policies reported.0.peer_connections
        ∙ report_status-policies loaded
        ∙ same in
      subst (λ ds. All (IsAllowed ds) (report_peers reported).1.outgoing_messages) (sym final)
        (report_peers-IsAllowed decisions reported (
          report_status-IsAllowed decisions loaded
            (subst (All (IsAllowed decisions)) (sym (save-messages sent)) allowed)))

  step_in-IsAllowed :
      (now : UnixTimestamp) (state : RunState) (turn : Turn am)
      → All IsDataless turn.1.outgoing_messages
      → let r : Turn am = step_in now state turn in
        All (IsAllowed (policies r.0.peer_connections)) r.1.outgoing_messages
  step_in-IsAllowed now RunState.stopped (a, out) h =
      All-mono IsDataless (IsAllowed (policies a.peer_connections))
        (dataless-IsAllowed (policies a.peer_connections)) out.outgoing_messages h
  step_in-IsAllowed now RunState.stopping (a, out) h =
      let decisions = policies a.peer_connections in
      let allowed : All (IsAllowed decisions) out.outgoing_messages =
        All-mono IsDataless (IsAllowed decisions) (dataless-IsAllowed decisions)
          out.outgoing_messages h in
      if_both
        (λ (r : Turn am). All (IsAllowed (policies r.0.peer_connections)) r.1.outgoing_messages)
        (is_flushed a.on_disk_state)
        (All-snoc (IsAllowed decisions) out.outgoing_messages allowed tt) allowed
  step_in-IsAllowed now RunState.running turn h = step_running-IsAllowed now turn h

  pub step-IsAllowed :
      (now : UnixTimestamp) (turn : Turn am)
      → All IsDataless turn.1.outgoing_messages
      → All
          (IsAllowed (policies (step now turn).0.peer_connections))
          (step now turn).1.outgoing_messages
  unfolding step
  step-IsAllowed now turn h = step_in-IsAllowed now turn.0.run_state turn h
