-- ===== src/Hub/State/Subscriptions.antt =====
-- Every connection hears of every document, and monitors hear of every connection:
-- `ensure_connections` and `pop_new_connection_info` of samod-core/src/actors/hub/state.rs.
use samod.Prelude.{true, false, Option, none, some, List, [], ◌∷◌, ◌++◌, nat_eq}
use samod.Prelude.Map.{Map, keys, get, insert, contains_key}
use samod.Prelude.Panic.{◌>>=◌}
use samod.Network.{ConnectionId, DocumentActorId, DocumentId, PeerId, empty_state, ConnectionInfo}
use samod.Hub.Connection.{
  Connection, EstablishedConnection, ConnectionPhase, established, add_document, pop_new_info,
}
use samod.Hub.State.{State}

abbrev pub add_document_subscription : EstablishedConnection → DocumentId → EstablishedConnection
add_document_subscription e document_id = record e {
  document_subscriptions = insert document_id empty_state e.document_subscriptions;
}

-- An entry of `to_connect`.
pub record ToConnect : Type 0 where
  pub peer_id : PeerId
  pub conn_id : ConnectionId
  pub doc_id : DocumentId
  pub actor : DocumentActorId

-- The inner loop, over the documents.
unfoldable pub subscribe :
    ConnectionId
    → Map DocumentId DocumentActorId
    → EstablishedConnection
    → EstablishedConnection × List ToConnect
subscribe conn_id [] e = (e, [])
subscribe conn_id ((doc_id, actor) ∷ docs) e = elim (contains_key doc_id e.document_subscriptions) [
  | true ↦ subscribe conn_id docs e
  | false ↦
      (let (e', more) = subscribe conn_id docs (add_document_subscription e doc_id) in
        (
          e',
          record { peer_id = e.remote_peer_id; conn_id = conn_id; doc_id = doc_id; actor = actor }
              ∷ more,
        ))
]

abbrev pub subscribe_phase :
    ConnectionId
    → Map DocumentId DocumentActorId
    → ConnectionPhase
    → ConnectionPhase × List ToConnect
subscribe_phase conn_id docs (established e) =
    let (e', found) = subscribe conn_id docs e in (established e', found)
subscribe_phase conn_id docs phase = (phase, [])

abbrev pub subscribe_connection :
    ConnectionId
    → Map DocumentId DocumentActorId
    → Option Connection
    → Map ConnectionId Connection
    → Map ConnectionId Connection × List ToConnect
subscribe_connection conn_id docs none conns = (conns, [])
subscribe_connection conn_id docs (some conn) conns =
    let (phase, found) = subscribe_phase conn_id docs conn.phase in
    (insert conn_id (record conn { phase = phase }) conns, found)

-- The outer loop, over the connections.
unfoldable pub subscribe_all :
    Map DocumentId DocumentActorId
    → List ConnectionId
    → Map ConnectionId Connection
    → Map ConnectionId Connection × List ToConnect
subscribe_all docs [] conns = (conns, [])
subscribe_all docs (conn_id ∷ rest) conns =
    let (conns', found) = subscribe_connection conn_id docs (get conn_id conns) conns in
    let (conns'', more) = subscribe_all docs rest conns' in (conns'', found ++ more)

-- The second loop: `unwrap` and `add_document` may panic.
unfoldable pub add_found :
    List ToConnect
    → Map ConnectionId Connection
    → Option (Map ConnectionId Connection × List (DocumentActorId × ConnectionId × PeerId))
add_found [] conns = some (conns, [])
add_found (t ∷ rest) conns = get t.conn_id conns >>= λ conn. add_document conn t.doc_id >>= λ conn'.
    add_found rest (insert t.conn_id conn' conns) >>= λ done.
    some (done.0, (t.actor, t.conn_id, t.peer_id) ∷ done.1)

unfoldable pub ensure_connections :
    State → Option (State × List (DocumentActorId × ConnectionId × PeerId))
unfolding subscribe_all add_found
ensure_connections s =
    let (conns, found) = subscribe_all s.document_to_actor (keys s.connections) s.connections in
    add_found found conns >>= λ done. some (record s { connections = done.0 }, done.1)

abbrev with_info :
    ConnectionId
    → Option ConnectionInfo
    → Map ConnectionId ConnectionInfo
    → Map ConnectionId ConnectionInfo
with_info id none rest = rest
with_info id (some info) rest = (id, info) ∷ rest

unfoldable pub pop_infos :
    List ConnectionId
    → Map ConnectionId Connection
    → Map ConnectionId Connection × Map ConnectionId ConnectionInfo
pop_infos [] conns = (conns, [])
pop_infos (id ∷ rest) conns = elim (get id conns) [
  | none ↦ pop_infos rest conns
  | some conn ↦
      (let (conn', news) = pop_new_info conn in
        let (conns', more) = pop_infos rest (insert id conn' conns) in
        (conns', with_info id news more))
]

abbrev pub pop_new_connection_info : State → State × Map ConnectionId ConnectionInfo
pop_new_connection_info s =
    let (conns, news) = pop_infos (keys s.connections) s.connections in
    (record s { connections = conns }, news)
