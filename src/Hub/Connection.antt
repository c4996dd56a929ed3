-- ===== src/Hub/Connection.antt =====
-- One network connection: samod-core/src/actors/hub/connection/*.rs. The identifier that
-- `ConnectionId::new()` draws is an argument.
pub mod Receive
pub mod Identity
pub mod Lifecycle
pub mod Handshake
mod Tests
use Prim.Native.String.{◌++◌ as concat}
use mathlib.Core.Option
use samod.Prelude.{
  ℕ, String, ◌≡◌, Bool, true, false, not, Option, none, some, List, [], ◌∷◌, ◌==◌, string_eq,
  nat_eq, if◌then◌else◌,
}
use samod.Prelude.Lists.{contains}
use samod.Prelude.Result.{Result, ok, err, ◌>>=◌}
use samod.Prelude.Map.{Map, insert, contains_key, get}
use samod.Network.{
  ConnectionId, DocumentId, PeerId, UnixTimestamp, Bytes, PeerMetadata, ConnDirection, outgoing,
  incoming, ConnectionOwner, ConnectionState, handshaking, connected, PeerDocState, empty_state,
  ConnectionInfo,
}
use samod.Messages.{SyncMessage, WireMessage}
use samod.Hub.Results.{HubResults}
use samod.Hub.Results

pub data ReceiveEvent : Type 0 where
  handshake_complete : PeerId → ReceiveEvent
  sync_message : DocumentId → PeerId → PeerId → SyncMessage → ReceiveEvent
  ephemeral_message : DocumentId → PeerId → PeerId → ℕ → String → Bytes → ReceiveEvent

pub record EstablishedConnection : Type 0 where
  pub remote_peer_id : PeerId
  pub remote_metadata : Option PeerMetadata
  pub protocol_version : String
  pub established_at : UnixTimestamp
  pub document_subscriptions : Map DocumentId PeerDocState

pub data ConnectionPhase : Type 0 where
  waiting_for_peer : ConnectionPhase
  waiting_for_join : ConnectionPhase
  established : EstablishedConnection → ConnectionPhase
  closed : String → ConnectionPhase

pub record Connection : Type 0 where
  pub id : ConnectionId
  pub owner : ConnectionOwner
  pub local_peer_id : PeerId
  pub expected_peer_id : Option PeerId
  pub local_metadata : Option PeerMetadata
  pub phase : ConnectionPhase
  pub created_at : UnixTimestamp
  pub last_received : Option UnixTimestamp
  pub last_sent : Option UnixTimestamp
  pub dirty : Bool

pub record ConnectionArgs : Type 0 where
  pub direction : ConnDirection
  pub owner : ConnectionOwner
  pub local_peer_id : PeerId
  pub expected_peer_id : Option PeerId
  pub local_metadata : Option PeerMetadata
  pub created_at : UnixTimestamp

-- `established_connection`, `remote_peer_id`, `closed_reason` and `is_closed` read the phase.
abbrev pub established_of : ConnectionPhase → Option EstablishedConnection
established_of (established e) = some e
established_of _ = none

abbrev pub peer_of : ConnectionPhase → Option PeerId
peer_of (established e) = some e.remote_peer_id
peer_of _ = none

abbrev reason_of : ConnectionPhase → Option String
reason_of (closed reason) = some reason
reason_of _ = none

abbrev pub established_connection : Connection → Option EstablishedConnection
established_connection conn = established_of conn.phase

abbrev pub remote_peer_id : Connection → Option PeerId
remote_peer_id conn = peer_of conn.phase

abbrev pub closed_reason : Connection → Option String
closed_reason conn = reason_of conn.phase

abbrev has_reason : Option String → Bool
has_reason none = false
has_reason (some reason) = true

abbrev pub is_closed : Connection → Bool
is_closed conn = has_reason (closed_reason conn)

abbrev pub close : Connection → String → Connection
close conn reason = record conn { dirty = true; phase = closed reason }

module _ {A : Type 0} where
  -- `Connection::send`
  abbrev pub send :
      Connection → HubResults A → UnixTimestamp → WireMessage → Connection × HubResults A
  send conn out now msg =
      (record conn { dirty = true; last_sent = some now }, Results.send out conn.id msg)

  -- The lines with which each rejection ends: an error message, `close`, no events.
  abbrev pub reject :
      Connection
      → HubResults A
      → UnixTimestamp
      → String
      → Connection × HubResults A × List ReceiveEvent
  reject conn out now reason =
      let (conn', out') = send conn out now (WireMessage.error reason) in
      (close conn' reason, out', [])

  abbrev greet : ConnDirection → Connection → HubResults A → Connection × HubResults A
  greet incoming conn out = (conn, out)
  greet outgoing conn out =
      send (record conn { phase = waiting_for_peer }) out conn.created_at
        (WireMessage.join conn.local_peer_id ("1" ∷ []) conn.local_metadata)

  unfoldable pub new_handshaking :
      ConnectionId → HubResults A → ConnectionArgs → Connection × HubResults A
  new_handshaking id out args =
      greet args.direction
        (record {
          id = id;
          owner = args.owner;
          local_peer_id = args.local_peer_id;
          expected_peer_id = args.expected_peer_id;
          local_metadata = args.local_metadata;
          phase = waiting_for_join;
          created_at = args.created_at;
          last_received = none;
          last_sent = none;
          dirty = true;
        })
        out

-- The sender and the target that a message names, as far as they are to be checked.
abbrev pub identity : WireMessage → Option PeerId × Option PeerId
identity (WireMessage.join sender_id _ _) = (some sender_id, none)
identity (WireMessage.leave sender_id) = (some sender_id, none)
identity (WireMessage.peer sender_id _ target_id _) = (some sender_id, some target_id)
identity (WireMessage.request _ sender_id target_id _) = (some sender_id, some target_id)
identity (WireMessage.sync _ sender_id target_id _) = (some sender_id, some target_id)
identity (WireMessage.doc_unavailable sender_id target_id _) = (some sender_id, some target_id)
identity (WireMessage.remote_heads_changed sender_id target_id _ _) =
    (some sender_id, some target_id)
identity (WireMessage.remote_subscription_change sender_id target_id _ _) =
    (some sender_id, some target_id)
identity (WireMessage.ephemeral _ target_id _ _ _ _) = (none, some target_id)
identity (WireMessage.error _) = (none, none)

abbrev pub or_else : Option PeerId → Option PeerId → Option PeerId
or_else none b = b
or_else (some a) b = some a

abbrev pub check_sender : Option PeerId → Option PeerId → Result String (Unit {0})
check_sender (some expected) (some actual) =
    if expected == actual
    then ok tt
    else err (concat "peer ID mismatch: expected " (concat expected (concat ", received " actual)))
check_sender _ _ = ok tt

abbrev pub check_target : PeerId → Option PeerId → Result String (Unit {0})
check_target local none = ok tt
check_target local (some target) =
    if target == local
    then ok tt
    else err
        (concat "target peer ID mismatch: expected " (concat local (concat ", received " target)))

unfoldable pub validate_identity : Connection → WireMessage → Result String (Unit {0})
validate_identity conn msg =
    check_sender (or_else (remote_peer_id conn) conn.expected_peer_id) (identity msg).0 >>= λ _.
    check_target conn.local_peer_id (identity msg).1

-- `add_document` panics outside the established phase: `none`.
abbrev add_to_phase : ConnectionPhase → DocumentId → Option ConnectionPhase
add_to_phase (established e) document_id = some (
    established (record e {
      document_subscriptions = insert document_id empty_state e.document_subscriptions;
    }))
add_to_phase _ document_id = none

unfoldable pub add_document : Connection → DocumentId → Option Connection
add_document conn document_id =
    Option.map (λ phase. record conn { phase = phase }) (add_to_phase conn.phase document_id)

abbrev update_established :
    Connection → EstablishedConnection → DocumentId → PeerDocState → Connection
update_established conn e document_id state =
    if contains_key document_id e.document_subscriptions
    then record conn {
      dirty = true;
      phase =
          established (record e {
            document_subscriptions = insert document_id state e.document_subscriptions;
          });
    }
    else conn

unfoldable pub update_peer_state : Connection → DocumentId → PeerDocState → Connection
update_peer_state conn document_id state = elim (established_connection conn) [
  | none ↦ conn
  | some e ↦ update_established conn e document_id state
]

abbrev subscriptions_of : ConnectionPhase → Map DocumentId PeerDocState
subscriptions_of (established e) = e.document_subscriptions
subscriptions_of _ = []

abbrev state_of : ConnectionPhase → ConnectionState
state_of (established e) = connected e.remote_peer_id
state_of _ = handshaking

abbrev pub info : Connection → ConnectionInfo
info conn = record {
  id = conn.id;
  last_received = conn.last_received;
  last_sent = conn.last_sent;
  docs = subscriptions_of conn.phase;
  state = state_of conn.phase;
}

unfoldable pub pop_new_info : Connection → Connection × Option ConnectionInfo
pop_new_info conn =
    if conn.dirty then (record conn { dirty = false }, some (info conn)) else (conn, none)
