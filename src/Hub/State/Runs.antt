-- ===== src/Hub/State/Runs.antt =====
-- Invariants of the hub's event loop: `handle_event` of samod-core/src/actors/hub/state.rs.
use samod.Prelude.{
  ◌≤◌, ◌≡◌, refl, ap, subst, inl, inr, Bool, true, false, Option, none, some, arith, nat_eq, ◌==◌,
  Bool-cases, Option-cases,
}
use samod.Prelude.Lists.{is_empty}
use samod.Prelude.Map.{Map, get, insert, remove, get-insert, get-insert_same, get-remove}
use samod.Network.{
  ConnectionId, DocumentActorId, DocumentId, CommandId, PeerId, UnixTimestamp, ConnectionOwner,
  dialer, listener,
}
use samod.Share.{ShareConfig}
use samod.Messages.{
  SyncMessage, DocSearchPhase, DocToHubMsg, doc_search_changed, peer_states_changed,
  send_sync_message, broadcast, disconnect, terminated,
}
use samod.Hub.Results.{HubResults, CommandResult}
use samod.Hub.Connection.{Connection}
use samod.Hub.Searches.{ActorInfo}
use samod.Hub.State.{
  State, Turn, RunState, running, stopping, stopped, closed_connections, find_established,
  find_actor_for_document, update_document_search_phase,
}
use samod.Hub.State.Peers.{ensure_connections-total}
use samod.Hub.State.Dialing.{
  handle_tick, lose_connection, handle_dialer_failure, handle_remove_dialer, handle_remove_listener,
  handle_add_dialer, handle_add_listener, create_connection_for, handshaking_for, adopted,
}
use samod.Hub.State.Input.{
  HubInput, Rng, handle_command, handle_actor_message, handle_input, is_running, send_from_actor,
  stop_hub, change_policy, complete_some,
}
use samod.Hub.State.Event.{
  HubEvent, io_complete, input, handle_event, handle_payload, drop_closed, connect_documents,
  report_news, emit_search_state_updates, finish, settled, is_stopped,
}
use samod.Hub.State.Frame.{
  Frame, adopted-frame, broadcast-frame, update_peer_states-frame, lose_connection-frame,
  lose_connections-frame, handle_tick-frame, handle_dialer_failure-frame,
  handle_remove_dialer-frame, handle_remove_listener-frame, close_all_network_state-frame,
}
use samod.Hub.State.Registry.{Registered, Kept, Kept-refl, Frame-Kept, After, bind-After_if}
use samod.Hub.State.Totality.{handle_event-total}
use samod.Hub.State.Upkeep.{
  FreshDraw, rank, Onwards, Kept-Onwards, Onwards-Kept, handle_command-Onwards,
}

update_phase-Registered :
    (a : DocumentActorId) (phase : DocSearchPhase) (x : ActorInfo) (s : State)
    → get a s.actors ≡ some x
    → Registered s
    → Registered (record s { actors = insert a (record x { search_phase = phase }) s.actors })
update_phase-Registered a phase x s e h b info f = elim (Bool-cases (a == b)) [
  | inl k ↦ ground (
    arith,
    e,
    f,
    h a x e,
    nat_eq.same_iff a b,
    get-insert a b (record x { search_phase = phase }) s.actors,
  )
  | inr k ↦
      h b info (ground (arith, f, k, get-insert a b (record x { search_phase = phase }) s.actors))
]

remove-Registered :
    (a : DocumentActorId) (s : State)
    → Registered s
    → Registered (record s { actors = remove a s.actors })
remove-Registered a s h b info f = h b info (ground (arith, f, get-remove a b s.actors))

update_phase-kept :
    (a : DocumentActorId) (phase : DocSearchPhase) (s : State)
    → Kept s (update_document_search_phase a phase s)
unfolding update_document_search_phase
update_phase-kept a phase s = elim (Option-cases (get a s.actors)) [
  | inl e ↦ rw (update_document_search_phase, e) (Kept-refl s)
  | inr (x, e) ↦
      rw (update_document_search_phase, e)
        (record { registered = update_phase-Registered a phase x s e; run_state = refl })
]

rank_running : (r : RunState) → is_running r ≡ true → rank r ≡ 0
rank_running running e = omega arith
rank_running stopping e = ground (arith, e)
rank_running stopped e = ground (arith, e)

Kept-connections :
    (s s' : State) (conns : Map ConnectionId Connection)
    → Kept s s'
    → Kept s (record s' { connections = conns })
Kept-connections s s' conns k = record { registered = k.registered; run_state = k.run_state }

framed : (rng : Rng) (s s' : State) → Frame s s' → Onwards rng s s'
framed rng s s' f = Kept-Onwards rng s s' (Frame-Kept s s' f)

settled-rises : (r : RunState) (b : Bool) → rank r ≤ rank (settled r b)
settled-rises running b = omega arith
settled-rises stopping true = omega arith
settled-rises stopping false = omega arith
settled-rises stopped b = omega arith

module _ {A : Type 0} where
  send_from_actor-kept :
      (id : ConnectionId) (d : DocumentId) (msg : SyncMessage) (s : State) (out : HubResults A)
      → Kept s (send_from_actor id d msg (s, out)).0
  unfolding send_from_actor
  send_from_actor-kept id d msg s out = elim (Option-cases (find_established s id)) [
    | inl e ↦ rw (send_from_actor, e) (Kept-refl s)
    | inr (found, e) ↦ rw (send_from_actor, e) (Kept-refl s)
  ]

  handle_actor_message-kept :
      (a : DocumentActorId) (msg : DocToHubMsg) (s : State) (out : HubResults A)
      → Kept s (handle_actor_message a msg (s, out)).0
  unfolding handle_actor_message
  handle_actor_message-kept a (send_sync_message id d msg) s out =
      send_from_actor-kept id d msg s out
  handle_actor_message-kept a (peer_states_changed states) s out =
      Frame-Kept s _ (update_peer_states-frame a states s)
  handle_actor_message-kept a (doc_search_changed phase) s out = update_phase-kept a phase s
  handle_actor_message-kept a (broadcast to msg) s out =
      Frame-Kept s _ (broadcast-frame a to msg (s, out))
  handle_actor_message-kept a (disconnect id reason) s out =
      elim (Option-cases (get id s.connections)) [
        | inl e ↦ rw (handle_actor_message, e) (Kept-refl s)
        | inr (conn, e) ↦
            rw (handle_actor_message, e) (record { registered = λ h. h; run_state = refl })
      ]
  handle_actor_message-kept a terminated s out = record {
    registered = remove-Registered a s;
    run_state = refl;
  }

  create_connection_for-kept :
      (now : UnixTimestamp) (owner : ConnectionOwner) (p : Option PeerId) (s : State)
      (out : HubResults A)
      → After
          (λ (r : Turn A × CommandResult). Kept s r.0.0)
          (create_connection_for now owner p (s, out))
  unfolding create_connection_for
  create_connection_for-kept now owner p s out =
      let id : ConnectionId = s.counters.connection in
      let (conn, out') = handshaking_for now owner p (s, out) in
      let conns = (adopted owner s).connections in
      rw (get-insert_same id conn conns) (
        Kept-connections s (adopted owner s) (insert id conn conns)
          (Frame-Kept s (adopted owner s) (adopted-frame owner s)))

  stop-Onwards :
      (rng : Rng) (s : State) (out : HubResults A)
      → is_running s.run_state ≡ true
      → Onwards rng s (stop_hub (s, out)).0
  stop-Onwards rng s out e =
      let kept =
        Frame-Kept (record s { run_state = stopping }) (stop_hub (s, out)).0
          (close_all_network_state-frame _) in
      record {
        registered = λ fresh h. kept.registered h;
        rises = omega (arith, ap rank kept.run_state, rank_running s.run_state e);
      }

  change_policy-kept :
      (d : DocumentId) (p : PeerId) (config : ShareConfig) (s : State) (out : HubResults A)
      → Kept s (change_policy d p config (s, out)).0
  change_policy-kept d p config s out = elim (Option-cases (find_actor_for_document d s)) [
    | inl e ↦ rw (change_policy, e) (Kept-refl s)
    | inr (info, e) ↦ rw (change_policy, e) (Kept-refl s)
  ]

  abbrev On : Rng → State → Turn A → Type 0
  On rng s turn = Onwards rng s turn.0

  complete_some-Onwards :
      (rng : Rng) (s : State) (id : CommandId) (r : Turn A × Option CommandResult)
      → Onwards rng s r.0.0
      → On rng s (complete_some id r)
  complete_some-Onwards rng s id (turn, none) o = o
  complete_some-Onwards rng s id (turn, some result) o = o

  handle_input-Onwards :
      (rng : Rng) (now : UnixTimestamp) (i : HubInput A) (s : State) (out : HubResults A)
      → After (On rng s) (handle_input rng now i (s, out))
  unfolding handle_input handle_add_dialer handle_add_listener
  handle_input-Onwards rng now HubInput.stop s out = elim (Bool-cases (is_running s.run_state)) [
    | inl e ↦ rw (handle_input, e) (stop-Onwards rng s out e)
    | inr e ↦ rw (handle_input, e) (Kept-Onwards rng s s (Kept-refl s))
  ]
  handle_input-Onwards rng now (HubInput.command id cmd) s out =
      elim (Bool-cases (is_running s.run_state)) [
        | inl e ↦
            rw (handle_input, e)
              (bind-After_if (λ (r : Turn A × Option CommandResult). Onwards rng s r.0.0) (On rng s)
                (handle_command rng now id cmd (s, out)) _
                (handle_command-Onwards rng now id cmd s out) (complete_some-Onwards rng s id))
        | inr e ↦ rw (handle_input, e) (Kept-Onwards rng s s (Kept-refl s))
      ]
  handle_input-Onwards rng now (HubInput.share_policy d p config) s out =
      elim (Bool-cases (is_running s.run_state)) [
        | inl e ↦ rw (handle_input, e) (Kept-Onwards rng s _ (change_policy-kept d p config s out))
        | inr e ↦ rw (handle_input, e) (Kept-Onwards rng s s (Kept-refl s))
      ]
  handle_input-Onwards rng now HubInput.tick s out =
      framed rng s (handle_tick now (s, out)).0 (handle_tick-frame now (s, out))
  handle_input-Onwards rng now (HubInput.actor_message a msg) s out =
      Kept-Onwards rng s (handle_actor_message a msg (s, out)).0
        (handle_actor_message-kept a msg s out)
  handle_input-Onwards rng now (HubInput.connection_lost id) s out =
      framed rng s (lose_connection rng.jitter now id (s, out)).0
        (lose_connection-frame rng.jitter now id (s, out))
  handle_input-Onwards rng now (HubInput.add_dialer id config) s out = record {
    registered = λ fresh h. h;
    rises = omega arith;
  }
  handle_input-Onwards rng now (HubInput.add_listener id config) s out = record {
    registered = λ fresh h. h;
    rises = omega arith;
  }
  handle_input-Onwards rng now (HubInput.create_dialer_connection id d p) s out =
      bind-After_if _ (On rng s) (create_connection_for now (dialer d) p (s, out)) _
        (create_connection_for-kept now (dialer d) p s out) λ r k. Kept-Onwards rng s r.0.0 k
  handle_input-Onwards rng now (HubInput.create_listener_connection id l p) s out =
      bind-After_if _ (On rng s) (create_connection_for now (listener l) p (s, out)) _
        (create_connection_for-kept now (listener l) p s out) λ r k. Kept-Onwards rng s r.0.0 k
  handle_input-Onwards rng now (HubInput.dial_failed id error permanent) s out =
      framed rng s (handle_dialer_failure rng.jitter now id permanent (s, out)).0
        (handle_dialer_failure-frame rng.jitter now id permanent (s, out))
  handle_input-Onwards rng now (HubInput.remove_dialer id) s out =
      framed rng s (handle_remove_dialer id (s, out)).0 (handle_remove_dialer-frame id (s, out))
  handle_input-Onwards rng now (HubInput.remove_listener id) s out =
      framed rng s (handle_remove_listener id (s, out)).0 (handle_remove_listener-frame id (s, out))

  handle_payload-Onwards :
      (rng : Rng) (now : UnixTimestamp) (event : HubEvent A) (s : State) (out : HubResults A)
      → After (On rng s) (handle_payload rng now event (s, out))
  handle_payload-Onwards rng now io_complete s out = Kept-Onwards rng s s (Kept-refl s)
  handle_payload-Onwards rng now (input i) s out = handle_input-Onwards rng now i s out

  connect_documents-kept :
      (s : State) (out : HubResults A)
      → After (λ (turn : Turn A). Kept s turn.0) (connect_documents (s, out))
  unfolding connect_documents
  connect_documents-kept s out = elim (Bool-cases (is_running s.run_state)) [
    | inl e ↦
        (let (conns, todo, f, same) = ensure_connections-total s in
          rw (connect_documents, e, f) (Kept-connections s s conns (Kept-refl s)))
    | inr e ↦ rw (connect_documents, e) (Kept-refl s)
  ]

  report_news-kept : (turn : Turn A) → Kept turn.0 (report_news turn).0
  unfolding report_news emit_search_state_updates
  report_news-kept (s, out) = record { registered = λ h. h; run_state = refl }

  handle_event-Onwards :
      (rng : Rng) (now : UnixTimestamp) (event : HubEvent A) (s : State) (out : HubResults A)
      → After (On rng s) (handle_event rng now event (s, out))
  unfolding handle_event drop_closed finish
  handle_event-Onwards rng now event s out = elim (Bool-cases (is_stopped s.run_state)) [
    | inl e ↦ rw (handle_event, e) (Kept-Onwards rng s s (Kept-refl s))
    | inr e ↦
        rw (handle_event, e)
          (bind-After_if (On rng s) (On rng s) (handle_payload rng now event (s, out)) _
            (handle_payload-Onwards rng now event s out)
            λ turn₁ o.
              (let turn' = drop_closed rng now turn₁ in
                let o' = Onwards-Kept rng s turn₁.0 turn'.0 o (
                  Frame-Kept turn₁.0 turn'.0
                    (lose_connections-frame rng.jitter now (closed_connections turn₁.0) turn₁)) in
                bind-After_if (λ (turn : Turn A). Kept turn'.0 turn.0) (On rng s)
                  (connect_documents turn') _ (connect_documents-kept turn'.0 turn'.1)
                  λ turn₂ k.
                    (let o'' = Onwards-Kept rng s turn'.0 turn₂.0 o' k in
                      let news = report_news turn₂ in
                      let k' = report_news-kept turn₂ in
                      record {
                        registered = λ fresh h. k'.registered (o''.registered fresh h);
                        rises = omega (
                          arith,
                          o''.rises,
                          ap rank k'.run_state,
                          settled-rises news.0.run_state (is_empty news.0.actors),
                        );
                      })))
  ]

  -- The hub handles every event, and if the identifier drawn for a new document has no actor yet,
  -- each actor stays entered for the document that it stands for.
  pub handle_event-Registered :
      (rng : Rng) (now : UnixTimestamp) (event : HubEvent A) (s : State) (out : HubResults A)
      → FreshDraw rng s
      → Registered s
      → (turn : Turn A) × (handle_event rng now event (s, out) ≡ some turn) × Registered turn.0
  handle_event-Registered rng now event s out fresh h =
      let (turn, e) = handle_event-total rng now event s out in
      let o : On rng s turn =
        subst (After (On rng s)) e (handle_event-Onwards rng now event s out) in
      (turn, e, o.registered fresh h)

  -- The hub handles every event and goes from running through stopping to stopped, never back.
  pub handle_event-rises :
      (rng : Rng) (now : UnixTimestamp) (event : HubEvent A) (s : State) (out : HubResults A)
      → (turn : Turn A) × (handle_event rng now event (s, out) ≡ some turn)
        × (rank s.run_state ≤ rank turn.0.run_state)
  handle_event-rises rng now event s out =
      let (turn, e) = handle_event-total rng now event s out in
      let o : On rng s turn =
        subst (After (On rng s)) e (handle_event-Onwards rng now event s out) in
      (turn, e, o.rises)
