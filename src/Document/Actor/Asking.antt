-- ===== src/Document/Actor/Asking.antt =====
-- A document actor asks only about peers that it is connected to:
-- samod-core/src/actors/document/document_actor.rs.
use samod.Prelude.{
  ℕ, Bool, true, false, Option, some, List, [], ◌∷◌, ◌≡◌, refl, ◌==◌, nat_eq, string_eq, list_eq,
  subst, sym, ◌∙◌, if_both, arith, Bool-cases, inl, inr, none, if◌then◌else◌, ap,
}
use samod.Prelude.Lists.{All, All-mono, contains}
use samod.Prelude.Panic.{bind_some, some_cancel, ◌>>=◌}
use samod.Network.{ConnectionId, PeerId, UnixTimestamp}
use samod.Messages.{SyncMessage, DocMessage, sync_msg, ephemeral_msg}
use samod.Document.Io.{IoTask, DocumentIoTask}
use samod.Document.Library.{Automerge}
use samod.Document.Results.{DocActorResult, SyncDirection, generated, send_sync}
use samod.Document.Results
use samod.Document.Peer.{PeerDocConnection, buffer_sync_message, new, share_config, mark_requested}
use samod.Document.Actor.{
  DocumentActor, Turn, ActorInput, from_hub, io_complete, tick, handle_doc_message, store,
}
use samod.Document.Actor.Step.{Peers, step}
use samod.Document.Actor.Input.{
  handle_input, process, and_step, handle_message, handle_io_complete, changed_heads,
  handle_message_of, first_message, connect_all, initial_actor, new_actor, may_read,
}
use samod.Document.Actor.Process.{Steady, process-Steady}
use samod.Document.Actor.Calls.{
  Call, message, completion, modification, call, stopped_or_handled, refused_or_handled,
}
use samod.Document.Actor.Checks.{
  peer_ids, AsksOf, AsksKnown, AllKnown, note_message-tasks, and_step-AllKnown,
}
use samod.Prelude.Map.{Map, get, insert, contains_key, get-insert_same}
use samod.Hub.Results.{SpawnArgs}
use samod.Document.Actor.Sync.{add_connection, handle_sync_message, is_data, handle_under}
use samod.Document.Actor.Upkeep.{add_connection-peers}

pub AsksKnown-mono :
    (xs ys : List PeerId)
    → ((peer : PeerId) → contains xs peer ≡ true → contains ys peer ≡ true)
    → (task : IoTask DocumentIoTask) → AsksKnown xs task
    → AsksKnown ys task
AsksKnown-mono xs ys f task = action task.action
  where
    action : (a : DocumentIoTask) → AsksOf xs a → AsksOf ys a
    action (DocumentIoTask.storage a) h = tt
    action (DocumentIoTask.check_share_policy peer_id) h = f peer_id h

-- Nothing is asked for.
taskless-Steady : Steady (λ out. out.io_tasks ≡ [])
taskless-Steady = record {
  pushed = λ out msg p h. h;
  noted = λ id direction bytes out h. note_message-tasks id direction bytes out ∙ h;
  changed = λ out heads h. h;
  emitted = λ out msg h. h;
}

-- What is asked stays as it is.
known-Steady : (ids : List PeerId) → Steady (AllKnown ids)
known-Steady ids = record {
  pushed = λ out msg p h. h;
  noted = λ id direction bytes out h.
      subst (All (AsksKnown ids)) (sym (note_message-tasks id direction bytes out)) h;
  changed = λ out heads h. h;
  emitted = λ out msg h. h;
}

module _ {am : Automerge} where
  -- The peers of a map to which a connection is added, or where it is put again.
  contains-insert_new :
      (id : ConnectionId) (c : PeerDocConnection am) (peers : Peers am)
      → contains_key id peers ≡ false
      → (peer : PeerId) → contains (peer_ids peers) peer ≡ true
      → contains (peer_ids (insert id c peers)) peer ≡ true
  unfolding insert get
  contains-insert_new id c [] fresh peer h = ground (arith, h)
  contains-insert_new id c ((own, d) ∷ peers) fresh peer h = elim (Bool-cases (own == id)) [
    | inl same ↦ ground (arith, same, fresh)
    | inr other ↦
        ground (arith, other, h, contains-insert_new id c peers (ground (arith, fresh, other)) peer)
  ]

  peer_ids-put :
      (id : ConnectionId) (c old : PeerDocConnection am) (peers : Peers am)
      → get id peers ≡ some old
      → c.peer_id ≡ old.peer_id
      → peer_ids (insert id c peers) ≡ peer_ids peers
  unfolding insert get
  peer_ids-put id c old [] found e = ground (arith, found)
  peer_ids-put id c old ((own, d) ∷ peers) found e = elim (Bool-cases (own == id)) [
    | inl same ↦
        (let p : d ≡ old = some_cancel (ground (arith, same, found)) in
          rw (same, peer_ids)
            (ap (λ p. p ∷ peer_ids peers)
              (e ∙ ap (λ (x : PeerDocConnection am). x.peer_id) (sym p))))
    | inr other ↦
        rw (other, peer_ids)
          (ap (λ ids. d.peer_id ∷ ids)
            (peer_ids-put id c old peers (ground (arith, other, found)) e))
  ]

  -- The first message of a new connection is buffered, as its sharing is not decided.
  first_sync-peers :
      (now : UnixTimestamp) (id : ConnectionId) (peer_id : PeerId) (msg : SyncMessage)
      (at : UnixTimestamp) (turn : Turn am)
      → get id turn.0.peer_connections ≡ some (new am peer_id id)
      → peer_ids (handle_sync_message now id msg at turn).0.peer_connections
        ≡ peer_ids turn.0.peer_connections
  unfolding handle_sync_message buffer_sync_message
  first_sync-peers now id peer_id msg at (a, out) found = rw found (buffered (is_data msg))
    where
      c : PeerDocConnection am
      c = new am peer_id id

      buffered :
          (carries : Bool)
          → let c' : PeerDocConnection am = if carries then mark_requested c else c in
            peer_ids
              (handle_under now id c' msg at
                (store id c' a, out)
                (share_config c')).0.peer_connections
            ≡ peer_ids a.peer_connections
      buffered true =
          peer_ids-put id _ (mark_requested c) (insert id (mark_requested c) a.peer_connections)
            (get-insert_same id (mark_requested c) a.peer_connections) refl
          ∙ peer_ids-put id (mark_requested c) c a.peer_connections found refl
      buffered false =
          peer_ids-put id _ c (insert id c a.peer_connections)
            (get-insert_same id c a.peer_connections) refl
          ∙ peer_ids-put id c c a.peer_connections found refl

  message_of-peers :
      (now : UnixTimestamp) (id : ConnectionId) (peer_id : PeerId) (at : UnixTimestamp)
      (msg : DocMessage) (turn : Turn am)
      → get id turn.0.peer_connections ≡ some (new am peer_id id)
      → peer_ids (handle_message_of now id at msg turn).1.0.peer_connections
        ≡ peer_ids turn.0.peer_connections
  message_of-peers now id peer_id at (sync_msg msg) turn found =
      first_sync-peers now id peer_id msg at turn found
  message_of-peers now id peer_id at (ephemeral_msg msg) (a, out) found =
      if_both
        (λ (r : Bool × Turn am). peer_ids r.1.0.peer_connections ≡ peer_ids a.peer_connections)
        (may_read (get id a.peer_connections)) refl refl

  handle_input-AllKnown :
      (now : UnixTimestamp) (input : ActorInput) (a : DocumentActor am) (n : ℕ) (turn : Turn am)
      → handle_input now input (a, Results.new n) ≡ some turn
      → AllKnown (peer_ids turn.0.peer_connections) turn.1
  unfolding handle_input
  handle_input-AllKnown now input a n turn e =
      let start : Turn am = (a, Results.new n) in
      let (r, f, g) = bind_some (process now input start) (λ r. some (and_step now r)) turn e in
      subst (λ (t : Turn am). AllKnown (peer_ids t.0.peer_connections) t.1) (some_cancel g)
        (and_step-AllKnown now r (
          subst (All (AsksKnown (peer_ids r.1.0.peer_connections)))
            (sym (process-Steady taskless-Steady now input start r f refl)) tt))

  changed-AllKnown :
      (old new : List ℕ) (t : Turn am)
      → AllKnown (peer_ids t.0.peer_connections) t.1
      → let r : Turn am = changed_heads old new t in AllKnown (peer_ids r.0.peer_connections) r.1
  changed-AllKnown old new (a, out) h =
      if_both (AllKnown (peer_ids a.peer_connections)) (old == new) h h

  -- In the result of a call each question about a peer's sharing is about a peer that is connected
  -- after the call.
  pub call-AllKnown :
      (c : Call am) (now : UnixTimestamp) (n : ℕ) (a : DocumentActor am) (turn : Turn am)
      → call c now n a ≡ some turn
      → AllKnown (peer_ids turn.0.peer_connections) turn.1
  unfolding call handle_message handle_io_complete
  call-AllKnown (message msg) now n a turn e =
      stopped_or_handled (λ t. AllKnown (peer_ids t.0.peer_connections) t.1) (from_hub msg) now n a
        turn tt (handle_input-AllKnown now (from_hub msg) a n turn) e
  call-AllKnown (completion result) now n a turn e =
      stopped_or_handled (λ t. AllKnown (peer_ids t.0.peer_connections) t.1) (io_complete result)
        now n a turn tt (handle_input-AllKnown now (io_complete result) a n turn) e
  call-AllKnown (modification f) now n a turn e =
      refused_or_handled (λ t. AllKnown (peer_ids t.0.peer_connections) t.1) f now n a turn tt
        (λ t g.
          changed-AllKnown (am.get_heads a.doc) (am.get_heads (f a.doc)) t
            (handle_input-AllKnown now tick (record a { doc = f a.doc }) n t g))
        e

  first_message-AllKnown :
      (now : UnixTimestamp) (id : ConnectionId) (peer_id : PeerId) (msg : Option DocMessage)
      (turn turn' : Turn am)
      → first_message now id msg turn ≡ some turn'
      → get id turn.0.peer_connections ≡ some (new am peer_id id)
      → AllKnown (peer_ids turn.0.peer_connections) turn.1
      → AllKnown (peer_ids turn'.0.peer_connections) turn'.1
  unfolding handle_input process
  first_message-AllKnown now id peer_id none turn turn' e found known =
      subst (λ (t : Turn am). AllKnown (peer_ids t.0.peer_connections) t.1) (some_cancel e) known
  first_message-AllKnown now id peer_id (some msg) turn turn' e found known =
      let r : Bool × Turn am = handle_message_of now id now msg turn in
      subst (λ (t : Turn am). AllKnown (peer_ids t.0.peer_connections) t.1) (some_cancel e)
        (and_step-AllKnown now r (
          subst (λ ids. AllKnown ids r.1.1)
            (sym (message_of-peers now id peer_id now msg turn found))
            (process-Steady (known-Steady (peer_ids turn.0.peer_connections)) now
              (handle_doc_message id msg now) turn r refl known)))

  added-fresh :
      (id : ConnectionId) (peer_id : PeerId) (a a' : DocumentActor am)
      → add_connection id peer_id a ≡ some a'
      → contains_key id a.peer_connections ≡ false
  unfolding add_connection
  added-fresh id peer_id a a' e = elim (Bool-cases (contains_key id a.peer_connections)) [
    | inl there ↦ ground (arith, there, e)
    | inr fresh ↦ fresh
  ]

  connect_all-AllKnown :
      (now : UnixTimestamp) (connections : Map ConnectionId (PeerId × Option DocMessage))
      (turn turn' : Turn am)
      → connect_all now connections turn ≡ some turn'
      → AllKnown (peer_ids turn.0.peer_connections) turn.1
      → AllKnown (peer_ids turn'.0.peer_connections) turn'.1
  connect_all-AllKnown now [] turn turn' e known =
      subst (λ (t : Turn am). AllKnown (peer_ids t.0.peer_connections) t.1) (some_cancel e) known
  connect_all-AllKnown now ((id, (peer_id, msg)) ∷ connections) (a, out) turn' e known =
      let (a', f, g) =
        bind_some (add_connection id peer_id a)
          (λ a'. first_message now id msg (a', out) >>= connect_all now connections) turn' e in
      let (t, f', g') =
        bind_some (first_message now id msg (a', out)) (connect_all now connections) turn' g in
      let there : a'.peer_connections ≡ insert id (new am peer_id id) a.peer_connections =
        add_connection-peers id peer_id a a' f in
      connect_all-AllKnown now connections t turn' g' (
        first_message-AllKnown now id peer_id msg (a', out) t f'
          (ap (get id) there ∙ get-insert_same id (new am peer_id id) a.peer_connections)
          (subst (λ peers. AllKnown (peer_ids peers) out) (sym there)
            (All-mono (AsksKnown (peer_ids a.peer_connections)) _
              (AsksKnown-mono (peer_ids a.peer_connections) _ (
                contains-insert_new id (new am peer_id id) a.peer_connections
                  (added-fresh id peer_id a a' f)))
              out.io_tasks known)))

  -- A new document actor has asked only about peers that it is connected to.
  pub new_actor-AllKnown :
      (now : UnixTimestamp) (args : SpawnArgs am.Doc) (n : ℕ) (turn : Turn am)
      → new_actor now args n ≡ some turn
      → AllKnown (peer_ids turn.0.peer_connections) turn.1
  unfolding new_actor step
  new_actor-AllKnown now args n turn e =
      let start : Turn am = (initial_actor args, Results.new n) in
      let (t, f, g) =
        bind_some (connect_all now args.initial_connections start) (λ t. some (step now t)) turn
          e in
      subst (λ (t' : Turn am). AllKnown (peer_ids t'.0.peer_connections) t'.1) (some_cancel g)
        (and_step-AllKnown now (true, t)
          (connect_all-AllKnown now args.initial_connections start t f tt))
