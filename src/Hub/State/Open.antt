-- ===== src/Hub/State/Open.antt =====
-- No closed connection outlives an event: the end of `handle_event` of
-- samod-core/src/actors/hub/state.rs.
use samod.Prelude.{
  ℕ, ◌≡◌, refl, ap, sym, subst, ◌∙◌, inl, inr, Bool, true, false, some, List, [], ◌∷◌, arith,
  nat_eq, ◌==◌, Bool-cases, Option-cases,
}
use samod.Prelude.Lists.{contains, filter}
use samod.Prelude.Map.{
  Map, keys, get, get-absent, insert, remove, remove_each, get-insert, get-remove_each,
  remove_absent,
}
use samod.Network.{
  ConnectionId, DialerId, DocumentActorId, DocumentId, PeerId, UnixTimestamp, ConnectionOwner,
  dialer, listener,
}
use samod.Hub.Connection.{
  Connection, ConnectionPhase, waiting_for_peer, waiting_for_join, established, closed, is_closed,
  add_document, pop_new_info,
}
use samod.Hub.State.{State, Turn, remove_connection, closed_connections, closed_at}
use samod.Hub.State.Dialing.{disown, lose_connection, lose_connections}
use samod.Hub.State.Subscriptions.{
  ToConnect, subscribe_phase, subscribe_all, add_found, ensure_connections, pop_infos,
}
use samod.Hub.Results.{HubResults}
use samod.Hub.State.Input.{Rng, is_running}
use samod.Hub.State.Event.{
  HubEvent, handle_event, handle_payload, drop_closed, connect_documents, report_news,
  emit_search_state_updates, finish, is_stopped,
}
use samod.Hub.State.Totality.{handle_event-total}
use samod.Hub.State.Registry.{After, bind-After, bind-After_if}

abbrev pub AllOpen : Map ConnectionId Connection → Type 0
AllOpen conns =
    (id : ConnectionId) (conn : Connection) → get id conns ≡ some conn → is_closed conn ≡ false

insert-AllOpen :
    (id : ConnectionId) (conn : Connection) (conns : Map ConnectionId Connection)
    → is_closed conn ≡ false
    → AllOpen conns
    → AllOpen (insert id conn conns)
insert-AllOpen id conn conns e h j c f = elim (Bool-cases (id == j)) [
  | inl same ↦ ground (arith, same, e, f, get-insert id j conn conns)
  | inr other ↦ h j c (ground (arith, other, f, get-insert id j conn conns))
]

subscribe_phase-open :
    (id : ConnectionId) (docs : Map DocumentId DocumentActorId) (conn : Connection)
    (phase : ConnectionPhase)
    → conn.phase ≡ phase
    → is_closed conn ≡ false
    → is_closed (record conn { phase = (subscribe_phase id docs phase).0 }) ≡ false
subscribe_phase-open id docs conn (closed reason) e h = ground (arith, e, h)
subscribe_phase-open id docs conn _ e h = refl

subscribe_all-AllOpen :
    (docs : Map DocumentId DocumentActorId) (ids : List ConnectionId)
    (conns : Map ConnectionId Connection)
    → AllOpen conns
    → AllOpen (subscribe_all docs ids conns).0
unfolding subscribe_all
subscribe_all-AllOpen docs [] conns h = h
subscribe_all-AllOpen docs (id ∷ ids) conns h = elim (Option-cases (get id conns)) [
  | inl e ↦ rw (subscribe_all, e) (subscribe_all-AllOpen docs ids conns h)
  | inr (conn, e) ↦
      (let conn' : Connection = record conn { phase = (subscribe_phase id docs conn.phase).0 } in
        rw (subscribe_all, e)
          (subscribe_all-AllOpen docs ids (insert id conn' conns) (
            insert-AllOpen id conn' conns
              (subscribe_phase-open id docs conn conn.phase refl (h id conn e)) h)))
]

add_document-open :
    (conn : Connection) (d : DocumentId) (phase : ConnectionPhase)
    → conn.phase ≡ phase
    → After (λ conn'. is_closed conn' ≡ false) (add_document conn d)
unfolding add_document
add_document-open conn d (established x) e = rw e refl
add_document-open conn d waiting_for_peer e = rw e tt
add_document-open conn d waiting_for_join e = rw e tt
add_document-open conn d (closed reason) e = rw e tt

add_found-AllOpen :
    (found : List ToConnect) (conns : Map ConnectionId Connection)
    → AllOpen conns
    → After
        (λ (r : Map ConnectionId Connection × List (DocumentActorId × ConnectionId × PeerId)).
          AllOpen r.0)
        (add_found found conns)
unfolding add_found
add_found-AllOpen [] conns h = h
add_found-AllOpen (f ∷ found) conns h = bind-After _ (get f.conn_id conns) _ λ conn.
    bind-After_if (λ (conn' : Connection). is_closed conn' ≡ false) _ (add_document conn f.doc_id) _
      (add_document-open conn f.doc_id conn.phase refl)
      λ conn' e.
        bind-After_if _ _ (add_found found (insert f.conn_id conn' conns)) _
          (add_found-AllOpen found (insert f.conn_id conn' conns)
            (insert-AllOpen f.conn_id conn' conns e h))
          λ r k. k

pop_infos-AllOpen :
    (ids : List ConnectionId) (conns : Map ConnectionId Connection)
    → AllOpen conns
    → AllOpen (pop_infos ids conns).0
unfolding pop_infos pop_new_info
pop_infos-AllOpen [] conns h = h
pop_infos-AllOpen (id ∷ ids) conns h = elim (Option-cases (get id conns)) [
  | inl e ↦ rw (pop_infos, e) (pop_infos-AllOpen ids conns h)
  | inr (conn, e) ↦
      rw (pop_infos, e)
        (pop_infos-AllOpen ids (insert id (pop_new_info conn).0 conns)
          (insert-AllOpen id (pop_new_info conn).0 conns (ground (arith, h id conn e)) h))
]

disown-connections :
    {A : Type 0} (jitter : DialerId → ℕ → ℕ) (now : UnixTimestamp) (id : ConnectionId)
    (owner : ConnectionOwner) (turn : Turn A)
    → (disown jitter now id owner turn).0.connections ≡ turn.0.connections
unfolding disown
disown-connections jitter now id (dialer d) (s, out) = elim (Option-cases (get d s.dialers)) [
  | inl e ↦ rw (disown, e) refl
  | inr (d', e) ↦ rw (disown, e) refl
]
disown-connections jitter now id (listener l) (s, out) = elim (Option-cases (get l s.listeners)) [
  | inl e ↦ rw (disown, e) refl
  | inr (l', e) ↦ rw (disown, e) refl
]

remove_connection-connections :
    {A : Type 0} (notify : Bool) (id : ConnectionId) (turn : Turn A)
    → (remove_connection notify id turn).0.0.connections ≡ remove id turn.0.connections
unfolding remove_connection
remove_connection-connections notify id (s, out) = elim (Option-cases (get id s.connections)) [
  | inl e ↦ rw (remove_connection, e) (sym (remove_absent id s.connections e))
  | inr (conn, e) ↦ rw (remove_connection, e) refl
]

lose_connection-connections :
    {A : Type 0} (jitter : DialerId → ℕ → ℕ) (now : UnixTimestamp) (id : ConnectionId)
    (turn : Turn A)
    → (lose_connection jitter now id turn).0.connections ≡ remove id turn.0.connections
unfolding lose_connection
lose_connection-connections jitter now id turn =
    let (turn', removed) = remove_connection true id turn in
    let gone = remove_connection-connections true id turn in
    elim (Option-cases removed) [
      | inl e ↦ rw (lose_connection, e) gone
      | inr (conn, e) ↦
          rw (lose_connection, e) (disown-connections jitter now id conn.owner turn' ∙ gone)
    ]

lose_connections-connections :
    {A : Type 0} (jitter : DialerId → ℕ → ℕ) (now : UnixTimestamp) (ids : List ConnectionId)
    (turn : Turn A)
    → (lose_connections jitter now ids turn).0.connections ≡ remove_each ids turn.0.connections
unfolding lose_connections
lose_connections-connections jitter now [] turn = refl
lose_connections-connections jitter now (id ∷ ids) turn =
    lose_connections-connections jitter now ids (lose_connection jitter now id turn)
    ∙ ap (remove_each ids) (lose_connection-connections jitter now id turn)

contains-filter :
    (p : ConnectionId → Bool) (ids : List ConnectionId) (id : ConnectionId)
    → contains ids id ≡ true
    → p id ≡ true
    → contains (filter p ids) id ≡ true
contains-filter p [] id h e = h
contains-filter p (i ∷ ids) id h e = elim (Bool-cases (i == id)) [
  | inl same ↦
      (let here : p i ≡ true = ap p ((nat_eq.same_iff i id).0 same) ∙ e in
        ground (arith, here, same))
  | inr other ↦ elim (Bool-cases (p i)) [
    | inl k ↦ ground (arith, k, other, contains-filter p ids id (ground (arith, h, other)) e)
    | inr k ↦ ground (arith, k, other, contains-filter p ids id (ground (arith, h, other)) e)
  ]
]

-- What is left after the removal was there, and was not found closed.
closed_found :
    (s : State) (id : ConnectionId) (conn : Connection)
    → get id (remove_each (closed_connections s) s.connections) ≡ some conn
    → is_closed conn ≡ true
    → ⊥
closed_found s id conn e gone =
    let ids = closed_connections s in
    let left = get-remove_each ids id s.connections in
    elim (Bool-cases (contains ids id)) [
      | inl found ↦ ground (arith, e, left, found)
      | inr lost ↦
          (let there : get id s.connections ≡ some conn = ground (arith, e, left, lost) in
            elim (Bool-cases (contains (keys s.connections) id)) [
              | inl key ↦
                  (let found =
                      contains-filter (λ i. closed_at (get i s.connections)) (keys s.connections) id
                        key (ap closed_at there ∙ gone) in
                    ground (arith, found, lost))
              | inr absent ↦ ground (arith, there, get-absent id s.connections absent)
            ])
    ]

remove_closed-AllOpen : (s : State) → AllOpen (remove_each (closed_connections s) s.connections)
remove_closed-AllOpen s id conn e = elim (Bool-cases (is_closed conn)) [
  | inr kept ↦ kept
  | inl gone ↦ absurd (closed_found s id conn e gone)
]

module _ {A : Type 0} where
  drop_closed-AllOpen :
      (rng : Rng) (now : UnixTimestamp) (turn : Turn A)
      → AllOpen (drop_closed rng now turn).0.connections
  unfolding drop_closed
  drop_closed-AllOpen rng now turn =
      rw (lose_connections-connections rng.jitter now (closed_connections turn.0) turn)
        (remove_closed-AllOpen turn.0)

  abbrev Clean : Turn A → Type 0
  Clean turn = AllOpen turn.0.connections

  connect_documents-Clean : (turn : Turn A) → Clean turn → After Clean (connect_documents turn)
  unfolding connect_documents ensure_connections
  connect_documents-Clean (s, out) h = elim (Bool-cases (is_running s.run_state)) [
    | inl e ↦
        (let (conns, found) =
            subscribe_all s.document_to_actor (keys s.connections) s.connections in
          rw (connect_documents, e)
            (bind-After_if
              (λ (r : State × List (DocumentActorId × ConnectionId × PeerId)).
                AllOpen r.0.connections)
              Clean (ensure_connections s) _
              (bind-After_if _ _ (add_found found conns) _
                (add_found-AllOpen found conns
                  (subscribe_all-AllOpen s.document_to_actor (keys s.connections) s.connections h))
                (λ r k. k))
              (λ r k. k)))
    | inr e ↦ rw (connect_documents, e) h
  ]

  report_news-Clean : (turn : Turn A) → Clean turn → Clean (report_news turn)
  unfolding report_news emit_search_state_updates
  report_news-Clean (s, out) h = pop_infos-AllOpen (keys s.connections) s.connections h

  handle_event-Clean :
      (rng : Rng) (now : UnixTimestamp) (event : HubEvent A) (s : State) (out : HubResults A)
      → is_stopped s.run_state ≡ false
      → After Clean (handle_event rng now event (s, out))
  unfolding handle_event finish
  handle_event-Clean rng now event s out e =
      rw (handle_event, e)
        (bind-After Clean (handle_payload rng now event (s, out)) _ λ turn₁.
          bind-After_if Clean Clean (connect_documents (drop_closed rng now turn₁)) _
            (connect_documents-Clean (drop_closed rng now turn₁)
              (drop_closed-AllOpen rng now turn₁))
            λ turn₂ h. report_news-Clean turn₂ h)

  -- After an event that a hub handles before it is stopped, no connection that it keeps is closed.
  pub handle_event-AllOpen :
      (rng : Rng) (now : UnixTimestamp) (event : HubEvent A) (s : State) (out : HubResults A)
      → is_stopped s.run_state ≡ false
      → (turn : Turn A) × (handle_event rng now event (s, out) ≡ some turn)
        × AllOpen turn.0.connections
  handle_event-AllOpen rng now event s out e =
      let (turn, f) = handle_event-total rng now event s out in
      (turn, f, subst (After Clean) f (handle_event-Clean rng now event s out e))
