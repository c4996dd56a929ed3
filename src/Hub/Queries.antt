-- ===== src/Hub/Queries.antt =====
-- What the embedding program reads of the hub: samod-core/src/actors/hub.rs, and the methods of
-- samod-core/src/actors/hub/state.rs that these call. A loop over the connections goes over their
-- keys and looks each of them up.
use mathlib.Core.Option
use samod.Prelude.{
  ℕ, String, ◌≡◌, refl, ap, Bool, true, false, Option, none, some, List, [], ◌∷◌, ◌==◌, ◌||◌,
  Option-cases, inl, inr, string_eq, nat_eq, if◌then◌else◌,
}
use samod.Prelude.Lists.{any, contains}
use samod.Prelude.Map.{Map, get, keys, values}
use samod.Network.{
  ConnectionId, DialerId, ListenerId, PeerId, ConnectionInfo, ConnectionState, handshaking,
  connected,
}
use samod.Dialer.{DialerState}
use samod.Hub.Listener.{ListenerState}
use samod.Hub.Connection.{
  Connection, EstablishedConnection, ConnectionPhase, waiting_for_peer, waiting_for_join,
  established, closed, established_connection,
}
use samod.Hub.State.{peers_among, established_peers, State, stopped}

abbrev info_of : ConnectionId → Connection → Option EstablishedConnection → ConnectionInfo
info_of id conn none = record {
  id = id;
  last_received = conn.last_received;
  last_sent = conn.last_sent;
  docs = [];
  state = handshaking;
}
info_of id conn (some e) = record {
  id = id;
  last_received = conn.last_received;
  last_sent = conn.last_sent;
  docs = e.document_subscriptions;
  state = connected e.remote_peer_id;
}

abbrev info_at : ConnectionId → Option Connection → List ConnectionInfo → List ConnectionInfo
info_at id none rest = rest
info_at id (some conn) rest = info_of id conn (established_connection conn) ∷ rest

abbrev infos : List ConnectionId → Map ConnectionId Connection → List ConnectionInfo
infos [] conns = []
infos (id ∷ ids) conns = info_at id (get id conns) (infos ids conns)

unfoldable pub connections : State → List ConnectionInfo
connections s = infos (keys s.connections) s.connections

abbrev talks_to : PeerId → Option EstablishedConnection → Bool
talks_to peer_id none = false
talks_to peer_id (some e) = e.remote_peer_id == peer_id

abbrev talks_at : PeerId → Option Connection → Bool
talks_at peer_id none = false
talks_at peer_id (some conn) = talks_to peer_id (established_connection conn)

unfoldable pub is_connected_to : PeerId → State → Bool
is_connected_to peer_id s = any (λ id. talks_at peer_id (get id s.connections)) (keys s.connections)

abbrev pub is_stopped : State → Bool
is_stopped s = elim s.run_state [ stopped ↦ true | _ ↦ false ]

-- The first listener for the URL.
abbrev find_url : String → Map ListenerId ListenerState → Option ListenerId
find_url url [] = none
find_url url ((id, l) ∷ listeners) = if l.url == url then some id else find_url url listeners

abbrev pub find_listener_for_url : String → State → Option ListenerId
find_listener_for_url url s = find_url url s.listeners

abbrev pub dialer_attempt : DialerId → State → Option ℕ
dialer_attempt dialer_id s = Option.map (λ (d : DialerState). d.attempts) (get dialer_id s.dialers)

-- The peers of the reports that say "connected".
abbrev with_state :
    ConnectionId → ConnectionState → Map ConnectionId PeerId → Map ConnectionId PeerId
with_state id handshaking rest = rest
with_state id (connected peer) rest = (id, peer) ∷ rest

abbrev pub connected_in : List ConnectionInfo → Map ConnectionId PeerId
connected_in [] = []
connected_in (info ∷ rest) = with_state info.id info.state (connected_in rest)

one_talks :
    (peer_id : PeerId) (id : ConnectionId) (phase : ConnectionPhase) (conn : Connection)
    (ids : List ConnectionId) (conns : Map ConnectionId Connection)
    → get id conns ≡ some (record conn { phase = phase })
    → any (λ i. talks_at peer_id (get i conns)) ids
      ≡ contains (values (peers_among ids conns)) peer_id
    → any (λ i. talks_at peer_id (get i conns)) (id ∷ ids)
      ≡ contains (values (peers_among (id ∷ ids) conns)) peer_id
unfolding peers_among
one_talks peer_id id waiting_for_peer conn ids conns found h = rw found h
one_talks peer_id id waiting_for_join conn ids conns found h = rw found h
one_talks peer_id id (closed reason) conn ids conns found h = rw found h
one_talks peer_id id (established e) conn ids conns found h =
    rw found (ap (λ b. e.remote_peer_id == peer_id || b) h)

any_talks :
    (peer_id : PeerId) (ids : List ConnectionId) (conns : Map ConnectionId Connection)
    → any (λ id. talks_at peer_id (get id conns)) ids
      ≡ contains (values (peers_among ids conns)) peer_id
unfolding peers_among
any_talks peer_id [] conns = refl
any_talks peer_id (id ∷ ids) conns = elim (Option-cases (get id conns)) [
  | inl absent ↦ rw absent (any_talks peer_id ids conns)
  | inr (conn, found) ↦
      one_talks peer_id id conn.phase conn ids conns found (any_talks peer_id ids conns)
]

one_reported :
    (id : ConnectionId) (phase : ConnectionPhase) (conn : Connection) (ids : List ConnectionId)
    (conns : Map ConnectionId Connection)
    → get id conns ≡ some (record conn { phase = phase })
    → peers_among ids conns ≡ connected_in (infos ids conns)
    → peers_among (id ∷ ids) conns ≡ connected_in (infos (id ∷ ids) conns)
unfolding peers_among
one_reported id waiting_for_peer conn ids conns found h = rw found h
one_reported id waiting_for_join conn ids conns found h = rw found h
one_reported id (closed reason) conn ids conns found h = rw found h
one_reported id (established e) conn ids conns found h =
    rw found (ap (λ rest. (id, e.remote_peer_id) ∷ rest) h)

all_reported :
    (ids : List ConnectionId) (conns : Map ConnectionId Connection)
    → peers_among ids conns ≡ connected_in (infos ids conns)
unfolding peers_among
all_reported [] conns = refl
all_reported (id ∷ ids) conns = elim (Option-cases (get id conns)) [
  | inl absent ↦ rw absent (all_reported ids conns)
  | inr (conn, found) ↦ one_reported id conn.phase conn ids conns found (all_reported ids conns)
]

-- The hub is connected to just the peers that it lists as established, and it lists just those
-- that its reports on connections say are connected, each with its connection.
pub connected_views_agree :
    (peer_id : PeerId) (s : State)
    → (is_connected_to peer_id s ≡ contains (values (established_peers s)) peer_id)
      × (established_peers s ≡ connected_in (connections s))
unfolding is_connected_to connections
connected_views_agree peer_id s = (
  any_talks peer_id (keys s.connections) s.connections,
  all_reported (keys s.connections) s.connections,
)
