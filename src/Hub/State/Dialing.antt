-- ===== src/Hub/State/Dialing.antt =====
-- Dialers, listeners and their connections in the hub: the handlers of
-- samod-core/src/actors/hub/state.rs from `handle_add_dialer` on. The random draw that a dialer's
-- retry makes is an argument.
use samod.Prelude.{
  ℕ, String, Bool, true, false, Option, none, some, List, [], ◌∷◌, nat_eq, if◌then◌else◌,
}
use samod.Prelude.Map.{Map, keys, get, insert, remove, remove_each}
use samod.Prelude.Panic.{◌>>=◌}
use samod.Network.{
  ConnectionId, DialerId, ListenerId, PeerId, UnixTimestamp, ConnectionOwner, dialer, listener,
  ConnDirection, outgoing, incoming, state_changed,
}
use samod.Dialer.{
  DialerState, BackoffConfig, ConnectionLostOutcome, not_ours, will_retry, max_retries_reached,
  handle_connection_lost, handle_dial_failed, handle_permanent_dial_failure, set_connected,
  reset_backoff, check_retry, mark_transport_pending, active_connection,
}
use samod.Dialer
use samod.Hub.Results.{
  HubResults, CommandResult, create_connection, add_dialer, add_listener, emit_dial_request,
  emit_connector_event, emit_connection_event, DialRequest,
}
use samod.Hub.Results
use samod.Hub.Connection.{Connection, new_handshaking, info}
use samod.Hub.Listener.{ListenerState}
use samod.Hub.Listener
use samod.Hub.State.{State, Turn, bump, add_connection, remove_connection, get_local_metadata}

pub record DialerConfig : Type 0 where
  pub url : String
  pub backoff : BackoffConfig

pub record ListenerConfig : Type 0 where
  pub url : String

abbrev pub set_dialer : DialerId → DialerState → State → State
set_dialer id d s = record s { dialers = insert id d s.dialers }

abbrev set_listener : ListenerId → ListenerState → State → State
set_listener id l s = record s { listeners = insert id l s.listeners }

unfoldable pub reset_dialer_backoff_for_owner : ConnectionOwner → State → State
reset_dialer_backoff_for_owner (listener id) s = s
reset_dialer_backoff_for_owner (dialer id) s = elim (get id s.dialers) [
  | none ↦ s
  | some d ↦ set_dialer id (reset_backoff d) s
]

unfoldable pub reset_dialer_backoff_for_connection : ConnectionId → State → State
unfolding reset_dialer_backoff_for_owner
reset_dialer_backoff_for_connection connection_id s = elim (get connection_id s.connections) [
  | none ↦ s
  | some conn ↦ reset_dialer_backoff_for_owner conn.owner s
]

abbrev pub connected_dialer : ConnectionId → DialerId → State → State
connected_dialer connection_id id s = elim (get id s.dialers) [
  | none ↦ s
  | some d ↦ set_dialer id (set_connected connection_id d).0 s
]

abbrev pub accepted_by : ConnectionId → ListenerId → State → State
accepted_by connection_id id s = elim (get id s.listeners) [
  | none ↦ s
  | some l ↦ set_listener id (Listener.add_connection connection_id l) s
]

abbrev pub adopt : ConnectionId → ConnectionOwner → State → State
adopt connection_id (dialer id) s = connected_dialer connection_id id s
adopt connection_id (listener id) s = accepted_by connection_id id s

-- The counter moves on, and the owner hears of its connection.
abbrev pub adopted : ConnectionOwner → State → State
adopted owner s =
    adopt s.counters.connection owner
      (record s { counters = record s.counters { connection = bump s.counters.connection } })

abbrev direction_of : ConnectionOwner → ConnDirection
direction_of (dialer id) = outgoing
direction_of (listener id) = incoming

-- `handle_tick`, first the loop that finds the retries that are due.
unfoldable pub check_retries :
    UnixTimestamp
    → List DialerId
    → Map DialerId DialerState
    → Map DialerId DialerState × List (DialerId × String)
check_retries now [] ds = (ds, [])
check_retries now (id ∷ ids) ds = elim (get id ds) [
  | none ↦ check_retries now ids ds
  | some d ↦
      (let (d', due) = check_retry now d in
        let (ds', more) = check_retries now ids (insert id d' ds) in
        (ds', (if due then (id, d.url) ∷ more else more)))
]

module _ {A : Type 0} where
  unfoldable pub handle_add_dialer : DialerConfig → Turn A → Turn A × CommandResult
  handle_add_dialer config (s, out) =
      let dialer_id : DialerId = s.counters.dialer in
      let d = (mark_transport_pending (Dialer.new dialer_id config.url config.backoff)).0 in
      (
        (
          set_dialer dialer_id d
              (record s { counters = record s.counters { dialer = bump dialer_id } }),
          emit_dial_request out (record { dialer_id = dialer_id; url = config.url }),
        ),
        add_dialer dialer_id,
      )

  unfoldable pub handle_add_listener : ListenerConfig → Turn A → Turn A × CommandResult
  handle_add_listener config (s, out) =
      let listener_id : ListenerId = s.counters.listener in
      (
        (
          set_listener listener_id (Listener.new listener_id config.url)
              (record s { counters = record s.counters { listener = bump listener_id } }),
          out,
        ),
        add_listener listener_id,
      )

  abbrev report : DialerId → String → ConnectionLostOutcome → HubResults A → HubResults A
  report id url (will_retry retry_at) out = out
  report id url max_retries_reached out =
      emit_connector_event out (Results.max_retries_reached id url)
  report id url not_ours out = out

  -- The owner of a connection that is gone hears of it.
  unfoldable pub disown :
      (DialerId → ℕ → ℕ) → UnixTimestamp → ConnectionId → ConnectionOwner → Turn A → Turn A
  disown jitter now connection_id (dialer id) (s, out) = elim (get id s.dialers) [
    | none ↦ (s, out)
    | some d ↦
        (let (d', outcome) = handle_connection_lost (jitter id) now connection_id d in
          (set_dialer id d' s, report id d.url outcome out))
  ]
  disown jitter now connection_id (listener id) (s, out) = elim (get id s.listeners) [
    | none ↦ (s, out)
    | some l ↦ (set_listener id (Listener.remove_connection connection_id l) s, out)
  ]

  unfoldable pub lose_connection :
      (DialerId → ℕ → ℕ) → UnixTimestamp → ConnectionId → Turn A → Turn A
  unfolding disown
  lose_connection jitter now connection_id turn =
      let (turn', removed) = remove_connection true connection_id turn in
      elim removed [ none ↦ turn' | some conn ↦ disown jitter now connection_id conn.owner turn' ]

  unfoldable pub lose_connections :
      (DialerId → ℕ → ℕ) → UnixTimestamp → List ConnectionId → Turn A → Turn A
  unfolding lose_connection
  lose_connections jitter now [] turn = turn
  lose_connections jitter now (id ∷ ids) turn =
      lose_connections jitter now ids (lose_connection jitter now id turn)

  -- The lines that `handle_create_dialer_connection` and `handle_create_listener_connection`
  -- share; the `unwrap` at their end may panic.
  abbrev pub handshaking_for :
      UnixTimestamp → ConnectionOwner → Option PeerId → Turn A → Connection × HubResults A
  handshaking_for now owner expected_peer_id (s, out) =
      new_handshaking s.counters.connection out (record {
        direction = direction_of owner;
        owner = owner;
        local_peer_id = s.peer_id;
        expected_peer_id = expected_peer_id;
        local_metadata = some (get_local_metadata s);
        created_at = now;
      })

  unfoldable pub create_connection_for :
      UnixTimestamp → ConnectionOwner → Option PeerId → Turn A → Option (Turn A × CommandResult)
  create_connection_for now owner expected_peer_id (s, out) =
      let id : ConnectionId = s.counters.connection in
      let (conn, out') = handshaking_for now owner expected_peer_id (s, out) in
      let s' = add_connection id conn (adopted owner s) in
      get id s'.connections >>= λ c.
      some
        ((s', emit_connection_event out' (state_changed id owner (info c))), create_connection id)

  abbrev pub handle_create_dialer_connection :
      UnixTimestamp → DialerId → Option PeerId → Turn A → Option (Turn A × CommandResult)
  handle_create_dialer_connection now dialer_id expected_peer_id turn =
      create_connection_for now (dialer dialer_id) expected_peer_id turn

  abbrev pub handle_create_listener_connection :
      UnixTimestamp → ListenerId → Option PeerId → Turn A → Option (Turn A × CommandResult)
  handle_create_listener_connection now listener_id expected_peer_id turn =
      create_connection_for now (listener listener_id) expected_peer_id turn

  abbrev dial_failed_with :
      (ℕ → ℕ) → UnixTimestamp → DialerId → Bool → DialerState → Turn A → Turn A
  dial_failed_with jitter now id true d (s, out) =
      (set_dialer id (handle_permanent_dial_failure d).0 s, out)
  dial_failed_with jitter now id false d (s, out) =
      let (d', outcome) = handle_dial_failed jitter now d in
      (set_dialer id d' s, report id d.url outcome out)

  unfoldable pub handle_dialer_failure :
      (DialerId → ℕ → ℕ) → UnixTimestamp → DialerId → Bool → Turn A → Turn A
  handle_dialer_failure jitter now id permanent (s, out) = elim (get id s.dialers) [
    | none ↦ (s, out)
    | some d ↦ dial_failed_with (jitter id) now id permanent d (s, out)
  ]

  abbrev pub drop_active : Option ConnectionId → Turn A → Turn A
  drop_active none turn = turn
  drop_active (some id) turn = (remove_connection true id turn).0

  unfoldable pub handle_remove_dialer : DialerId → Turn A → Turn A
  handle_remove_dialer id (s, out) = elim (get id s.dialers) [
    | none ↦ (s, out)
    | some d ↦ drop_active (active_connection d) (record s { dialers = remove id s.dialers }, out)
  ]

  unfoldable pub remove_all : Bool → List ConnectionId → Turn A → Turn A
  remove_all notify [] turn = turn
  remove_all notify (id ∷ ids) turn = remove_all notify ids (remove_connection notify id turn).0

  unfoldable pub handle_remove_listener : ListenerId → Turn A → Turn A
  unfolding remove_all
  handle_remove_listener id (s, out) = elim (get id s.listeners) [
    | none ↦ (s, out)
    | some l ↦
        remove_all true l.active_connections (record s { listeners = remove id s.listeners }, out)
  ]

  unfoldable pub close_all_network_state : Turn A → Turn A
  unfolding remove_all
  close_all_network_state (s, out) =
      let (s', out') = remove_all false (keys s.connections) (s, out) in
      (
        record s' {
          dialers = remove_each (keys s'.dialers) s'.dialers;
          listeners = remove_each (keys s'.listeners) s'.listeners;
        },
        out',
      )

  unfoldable pub redial : List (DialerId × String) → Turn A → Turn A
  redial [] turn = turn
  redial ((id, url) ∷ rest) (s, out) = elim (get id s.dialers) [
    | none ↦ redial rest (s, out)
    | some d ↦ redial rest (
      set_dialer id (mark_transport_pending d).0 s,
      emit_dial_request out (record { dialer_id = id; url = url }),
    )
  ]

  unfoldable pub handle_tick : UnixTimestamp → Turn A → Turn A
  unfolding check_retries redial
  handle_tick now (s, out) =
      let (ds, need_dial) = check_retries now (keys s.dialers) s.dialers in
      redial need_dial (record s { dialers = ds }, out)
