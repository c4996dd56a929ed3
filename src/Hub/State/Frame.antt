-- ===== src/Hub/State/Frame.antt =====
-- What the network handlers of samod-core/src/actors/hub/state.rs leave alone: the actors, the
-- documents they stand for, and whether the hub runs.
use samod.Prelude.{
  ℕ, String, ◌≡◌, refl, ◌∙◌, inl, inr, Bool, true, false, Option, none, some, List, [], ◌∷◌, nat_eq,
  Option-cases,
}
use samod.Prelude.Map.{Map, keys, get, remove}
use samod.Network.{
  ConnectionId, DialerId, ListenerId, DocumentActorId, UnixTimestamp, ConnectionOwner, PeerDocState,
  dialer, listener,
}
use samod.Messages.{Broadcast}
use samod.Dialer.{active_connection, mark_transport_pending}
use samod.Hub.Results.{emit_dial_request}
use samod.Hub.State.{State, Turn, bump, remove_connection, update_peer_states}
use samod.Hub.State.Dialing.{
  disown, lose_connection, lose_connections, adopt, connected_dialer, accepted_by,
  handle_dialer_failure, drop_active, handle_remove_dialer, remove_all, handle_remove_listener,
  close_all_network_state, redial, handle_tick, set_dialer, check_retries, adopted,
  reset_dialer_backoff_for_owner, reset_dialer_backoff_for_connection,
}
use samod.Hub.State.Documents.{broadcast}

pub record Frame (s s' : State) : Type 0 where
  pub same_actors : s'.actors ≡ s.actors
  pub same_documents : s'.document_to_actor ≡ s.document_to_actor
  pub same_run_state : s'.run_state ≡ s.run_state

abbrev pub unchanged : (s : State) → Frame s s
unchanged s = record { same_actors = refl; same_documents = refl; same_run_state = refl }

pub Frame-trans : (a b c : State) → Frame a b → Frame b c → Frame a c
Frame-trans a b c f g = record {
  same_actors = g.same_actors ∙ f.same_actors;
  same_documents = g.same_documents ∙ f.same_documents;
  same_run_state = g.same_run_state ∙ f.same_run_state;
}

-- `here s` is `Frame s'` for every `s'` that has the actors, the documents and the run state of `s`.
abbrev here :
    {s' : State} (s : State)
    → s'.actors ≡ s.actors
    → s'.document_to_actor ≡ s.document_to_actor
    → s'.run_state ≡ s.run_state
    → Frame s s'
here s a d r = record { same_actors = a; same_documents = d; same_run_state = r }

module _ {A : Type 0} where
  pub remove_connection-frame :
      (notify : Bool) (id : ConnectionId) (turn : Turn A)
      → Frame turn.0 (remove_connection notify id turn).0.0
  unfolding remove_connection
  remove_connection-frame notify id (s, out) = elim (Option-cases (get id s.connections)) [
    | inl e ↦ rw (remove_connection, e) (unchanged s)
    | inr (conn, e) ↦ rw (remove_connection, e) (here s refl refl refl)
  ]

  disown-frame :
      (jitter : DialerId → ℕ → ℕ) (now : UnixTimestamp) (id : ConnectionId)
      (owner : ConnectionOwner) (turn : Turn A)
      → Frame turn.0 (disown jitter now id owner turn).0
  unfolding disown
  disown-frame jitter now id (dialer d) (s, out) = elim (Option-cases (get d s.dialers)) [
    | inl e ↦ rw (disown, e) (unchanged s)
    | inr (d', e) ↦ rw (disown, e) (here s refl refl refl)
  ]
  disown-frame jitter now id (listener l) (s, out) = elim (Option-cases (get l s.listeners)) [
    | inl e ↦ rw (disown, e) (unchanged s)
    | inr (l', e) ↦ rw (disown, e) (here s refl refl refl)
  ]

  pub lose_connection-frame :
      (jitter : DialerId → ℕ → ℕ) (now : UnixTimestamp) (id : ConnectionId) (turn : Turn A)
      → Frame turn.0 (lose_connection jitter now id turn).0
  unfolding lose_connection
  lose_connection-frame jitter now id turn =
      let (turn', removed) = remove_connection true id turn in
      let kept = remove_connection-frame true id turn in
      elim (Option-cases removed) [
        | inl e ↦ rw (lose_connection, e) kept
        | inr (conn, e) ↦
            rw (lose_connection, e)
              (Frame-trans turn.0 turn'.0 (disown jitter now id conn.owner turn').0 kept
                (disown-frame jitter now id conn.owner turn'))
      ]

  pub lose_connections-frame :
      (jitter : DialerId → ℕ → ℕ) (now : UnixTimestamp) (ids : List ConnectionId) (turn : Turn A)
      → Frame turn.0 (lose_connections jitter now ids turn).0
  unfolding lose_connections
  lose_connections-frame jitter now [] turn = unchanged turn.0
  lose_connections-frame jitter now (id ∷ ids) turn =
      let turn' = lose_connection jitter now id turn in
      Frame-trans turn.0 turn'.0 (lose_connections jitter now ids turn').0
        (lose_connection-frame jitter now id turn) (lose_connections-frame jitter now ids turn')

  pub remove_all-frame :
      (notify : Bool) (ids : List ConnectionId) (turn : Turn A)
      → Frame turn.0 (remove_all notify ids turn).0
  unfolding remove_all
  remove_all-frame notify [] turn = unchanged turn.0
  remove_all-frame notify (id ∷ ids) turn =
      let turn' = (remove_connection notify id turn).0 in
      Frame-trans turn.0 turn'.0 (remove_all notify ids turn').0
        (remove_connection-frame notify id turn) (remove_all-frame notify ids turn')

  pub handle_dialer_failure-frame :
      (jitter : DialerId → ℕ → ℕ) (now : UnixTimestamp) (id : DialerId) (permanent : Bool)
      (turn : Turn A)
      → Frame turn.0 (handle_dialer_failure jitter now id permanent turn).0
  unfolding handle_dialer_failure
  handle_dialer_failure-frame jitter now id true (s, out) = elim (Option-cases (get id s.dialers)) [
    | inl e ↦ rw (handle_dialer_failure, e) (unchanged s)
    | inr (d, e) ↦ rw (handle_dialer_failure, e) (here s refl refl refl)
  ]
  handle_dialer_failure-frame jitter now id false (s, out) =
      elim (Option-cases (get id s.dialers)) [
        | inl e ↦ rw (handle_dialer_failure, e) (unchanged s)
        | inr (d, e) ↦ rw (handle_dialer_failure, e) (here s refl refl refl)
      ]

  drop_active-frame :
      (o : Option ConnectionId) (turn : Turn A) → Frame turn.0 (drop_active o turn).0
  drop_active-frame none turn = unchanged turn.0
  drop_active-frame (some id) turn = remove_connection-frame true id turn

  pub handle_remove_dialer-frame :
      (id : DialerId) (turn : Turn A) → Frame turn.0 (handle_remove_dialer id turn).0
  unfolding handle_remove_dialer
  handle_remove_dialer-frame id (s, out) = elim (Option-cases (get id s.dialers)) [
    | inl e ↦ rw (handle_remove_dialer, e) (unchanged s)
    | inr (d, e) ↦
        (let s' = record s { dialers = remove id s.dialers } in
          rw (handle_remove_dialer, e)
            (Frame-trans s s' (drop_active (active_connection d) (s', out)).0
              (here s refl refl refl) (drop_active-frame (active_connection d) (s', out))))
  ]

  pub handle_remove_listener-frame :
      (id : ListenerId) (turn : Turn A) → Frame turn.0 (handle_remove_listener id turn).0
  unfolding handle_remove_listener
  handle_remove_listener-frame id (s, out) = elim (Option-cases (get id s.listeners)) [
    | inl e ↦ rw (handle_remove_listener, e) (unchanged s)
    | inr (l, e) ↦
        (let s' = record s { listeners = remove id s.listeners } in
          rw (handle_remove_listener, e)
            (Frame-trans s s' (remove_all true l.active_connections (s', out)).0
              (here s refl refl refl) (remove_all-frame true l.active_connections (s', out))))
  ]

  pub close_all_network_state-frame :
      (turn : Turn A) → Frame turn.0 (close_all_network_state turn).0
  unfolding close_all_network_state
  close_all_network_state-frame (s, out) =
      let kept = remove_all-frame false (keys s.connections) (s, out) in
      here s kept.same_actors kept.same_documents kept.same_run_state

  redial-frame : (due : List (DialerId × String)) (turn : Turn A) → Frame turn.0 (redial due turn).0
  unfolding redial
  redial-frame [] turn = unchanged turn.0
  redial-frame ((id, url) ∷ due) (s, out) = elim (Option-cases (get id s.dialers)) [
    | inl e ↦ rw (redial, e) (redial-frame due (s, out))
    | inr (d, e) ↦
        (let turn' : Turn A = (
          set_dialer id (mark_transport_pending d).0 s,
          emit_dial_request out (record { dialer_id = id; url = url }),
        ) in
          rw (redial, e)
            (Frame-trans s turn'.0 (redial due turn').0 (here s refl refl refl)
              (redial-frame due turn')))
  ]

  pub handle_tick-frame :
      (now : UnixTimestamp) (turn : Turn A) → Frame turn.0 (handle_tick now turn).0
  unfolding handle_tick
  handle_tick-frame now (s, out) =
      let (ds, due) = check_retries now (keys s.dialers) s.dialers in
      let s' = record s { dialers = ds } in
      Frame-trans s s' (redial due (s', out)).0 (here s refl refl refl) (redial-frame due (s', out))

  pub broadcast-frame :
      (id : DocumentActorId) (to : List ConnectionId) (msg : Broadcast) (turn : Turn A)
      → Frame turn.0 (broadcast id to msg turn).0
  unfolding broadcast
  broadcast-frame id to msg (s, out) = elim (Option-cases (get id s.actors)) [
    | inl e ↦ rw (broadcast, e) (unchanged s)
    | inr (info, e) ↦ rw (broadcast, e) (here s refl refl refl)
  ]

adopt-frame : (id : ConnectionId) (owner : ConnectionOwner) (s : State) → Frame s (adopt id owner s)
adopt-frame id (dialer d) s = elim (Option-cases (get d s.dialers)) [
  | inl e ↦ rw (connected_dialer, e) (unchanged s)
  | inr (d', e) ↦ rw (connected_dialer, e) (here s refl refl refl)
]
adopt-frame id (listener l) s = elim (Option-cases (get l s.listeners)) [
  | inl e ↦ rw (accepted_by, e) (unchanged s)
  | inr (l', e) ↦ rw (accepted_by, e) (here s refl refl refl)
]

pub adopted-frame : (owner : ConnectionOwner) (s : State) → Frame s (adopted owner s)
adopted-frame owner s =
    let s' = record s {
      counters = record s.counters { connection = bump s.counters.connection };
    } in
    Frame-trans s s' (adopted owner s) (here s refl refl refl)
      (adopt-frame s.counters.connection owner s')

pub update_peer_states-frame :
    (id : DocumentActorId) (states : Map ConnectionId PeerDocState) (s : State)
    → Frame s (update_peer_states id states s)
unfolding update_peer_states
update_peer_states-frame id states s = elim (Option-cases (get id s.actors)) [
  | inl e ↦ rw (update_peer_states, e) (unchanged s)
  | inr (info, e) ↦ rw (update_peer_states, e) (here s refl refl refl)
]

reset_owner-frame :
    (owner : ConnectionOwner) (s : State) → Frame s (reset_dialer_backoff_for_owner owner s)
unfolding reset_dialer_backoff_for_owner
reset_owner-frame (listener id) s = unchanged s
reset_owner-frame (dialer id) s = elim (Option-cases (get id s.dialers)) [
  | inl e ↦ rw (reset_dialer_backoff_for_owner, e) (unchanged s)
  | inr (d, e) ↦ rw (reset_dialer_backoff_for_owner, e) (here s refl refl refl)
]

pub reset-frame :
    (id : ConnectionId) (s : State) → Frame s (reset_dialer_backoff_for_connection id s)
unfolding reset_dialer_backoff_for_connection
reset-frame id s = elim (Option-cases (get id s.connections)) [
  | inl e ↦ rw (reset_dialer_backoff_for_connection, e) (unchanged s)
  | inr (conn, e) ↦ rw (reset_dialer_backoff_for_connection, e) (reset_owner-frame conn.owner s)
]
