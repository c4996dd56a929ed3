-- ===== src/Hub/Connection/Lifecycle.antt =====
-- The life of a connection over all the messages that reach it: `receive_msg` of
-- samod-core/src/actors/hub/connection/connection.rs.
use samod.Prelude.{
  ℕ, ◌+◌, ◌≤◌, String, ◌≡◌, refl, inl, inr, true, some, List, [], ◌∷◌, ◌++◌, arith, string_eq,
  Bool-cases,
}
use samod.Prelude.Result.{Result, ok, err}
use samod.Network.{PeerId, UnixTimestamp}
use samod.Messages.{WireMessage}
use samod.Hub.Results.{HubResults}
use samod.Hub.Connection.{
  Connection, EstablishedConnection, ConnectionPhase, waiting_for_peer, waiting_for_join,
  established, closed, ReceiveEvent, handshake_complete, sync_message, ephemeral_message,
  validate_identity, is_closed,
}
use samod.Hub.Connection.Receive.{
  receive_msg, receive_in_phase, receive_validated, receive_waiting_for_join,
  receive_waiting_for_peer, receive_established, Received,
}

-- All the messages that arrive on a connection, each with its time.
unfoldable pub receive_all :
    {A : Type 0} → Connection → HubResults A → List (UnixTimestamp × WireMessage) → Received A
receive_all conn out [] = (conn, out, [])
receive_all conn out ((now, msg) ∷ rest) =
    let (conn', out', events) = receive_msg conn out now msg in
    let (conn'', out'', events') = receive_all conn' out' rest in (conn'', out'', events ++ events')

-- A closed connection stays closed for its first reason, sends nothing and raises no event.
pub receive_all-closed :
    {A : Type 0} (conn : Connection) (out : HubResults A) (reason : String)
    (msgs : List (UnixTimestamp × WireMessage))
    → conn.phase ≡ closed reason
    → ((receive_all conn out msgs).0.phase ≡ closed reason)
      × ((receive_all conn out msgs).1 ≡ out)
      × ((receive_all conn out msgs).2 ≡ [])
unfolding receive_all receive_msg
receive_all-closed conn out reason [] e = (e, refl, refl)
receive_all-closed conn out reason ((now, msg) ∷ rest) e = ground (
  arith,
  receive_all-closed (record conn { dirty = true; last_received = some now }) out reason rest e,
)

abbrev pub handshakes : List ReceiveEvent → ℕ
handshakes [] = 0
handshakes (handshake_complete p ∷ events) = 1 + handshakes events
handshakes (sync_message _ _ _ _ ∷ events) = handshakes events
handshakes (ephemeral_message _ _ _ _ _ _ ∷ events) = handshakes events

handshakes-append :
    (xs ys : List ReceiveEvent) → handshakes (xs ++ ys) ≡ handshakes xs + handshakes ys
handshakes-append [] ys = omega arith
handshakes-append (handshake_complete p ∷ xs) ys = omega (arith, handshakes-append xs ys)
handshakes-append (sync_message _ _ _ _ ∷ xs) ys = handshakes-append xs ys
handshakes-append (ephemeral_message _ _ _ _ _ _ ∷ xs) ys = handshakes-append xs ys

abbrev pub open_handshake : ConnectionPhase → ℕ
open_handshake waiting_for_peer = 1
open_handshake waiting_for_join = 1
open_handshake _ = 0

module _ {A : Type 0} (conn : Connection) (out : HubResults A) (now : UnixTimestamp) where
  abbrev Fewer : ConnectionPhase → Received A → Type 0
  Fewer phase r = handshakes r.2 + open_handshake r.0.phase ≤ open_handshake phase

  join-Fewer :
      (msg : WireMessage) → Fewer waiting_for_join (receive_waiting_for_join conn out now msg)
  unfolding receive_waiting_for_join
  join-Fewer (WireMessage.join s v m) = ground arith
  join-Fewer msg = omega arith

  peer-Fewer :
      (msg : WireMessage) → Fewer waiting_for_peer (receive_waiting_for_peer conn out now msg)
  unfolding receive_waiting_for_peer
  peer-Fewer (WireMessage.peer s v t m) = ground arith
  peer-Fewer msg = omega arith

  established-Fewer :
      (msg : WireMessage) (e : EstablishedConnection)
      → conn.phase ≡ established e
      → Fewer (established e) (receive_established conn out now msg)
  unfolding receive_established
  established-Fewer (WireMessage.join _ _ _) e h = omega arith
  established-Fewer msg e h = ground arith

  in_phase-Fewer :
      (msg : WireMessage) (phase : ConnectionPhase)
      → conn.phase ≡ phase
      → Fewer phase (receive_in_phase phase conn out now msg)
  in_phase-Fewer msg waiting_for_join e = join-Fewer msg
  in_phase-Fewer msg waiting_for_peer e = peer-Fewer msg
  in_phase-Fewer msg (established est) e = established-Fewer msg est e
  in_phase-Fewer msg (closed reason) e = ground arith

  validated-Fewer :
      (msg : WireMessage) (r : Result String (Unit {0}))
      → Fewer conn.phase (receive_validated r conn out now msg)
  validated-Fewer msg (ok _) = in_phase-Fewer msg conn.phase refl
  validated-Fewer msg (err reason) = omega arith

receive_msg-fewer :
    {A : Type 0} (conn : Connection) (out : HubResults A) (now : UnixTimestamp) (msg : WireMessage)
    → handshakes (receive_msg conn out now msg).2
        + open_handshake (receive_msg conn out now msg).0.phase
      ≤ open_handshake conn.phase
unfolding receive_msg
receive_msg-fewer conn out now msg =
    let conn' : Connection = record conn { dirty = true; last_received = some now } in
    ground (arith, validated-Fewer conn' out now msg (validate_identity conn' msg))

-- Over all its messages a connection completes at most one handshake, and none once it is
-- established or closed.
pub handshakes-receive_all :
    {A : Type 0} (conn : Connection) (out : HubResults A)
    (msgs : List (UnixTimestamp × WireMessage))
    → handshakes (receive_all conn out msgs).2 + open_handshake (receive_all conn out msgs).0.phase
      ≤ open_handshake conn.phase
unfolding receive_all
handshakes-receive_all conn out [] = omega arith
handshakes-receive_all conn out ((now, msg) ∷ rest) =
    let (conn', out', events) = receive_msg conn out now msg in
    omega (
      arith,
      receive_msg-fewer conn out now msg,
      handshakes-receive_all conn' out' rest,
      handshakes-append events (receive_all conn' out' rest).2,
    )

-- Established with `p`, or closed.
abbrev pub StaysWith : PeerId → ConnectionPhase → Type 0
StaysWith p (established e) = e.remote_peer_id ≡ p
StaysWith p (closed reason) = Unit
StaysWith p _ = ⊥

module _ {A : Type 0} (p : PeerId) (conn : Connection) (out : HubResults A) (now : UnixTimestamp)
    (msg : WireMessage) where
  established-StaysWith :
      (m : WireMessage) (e : EstablishedConnection)
      → conn.phase ≡ established e
      → e.remote_peer_id ≡ p
      → StaysWith p (receive_established conn out now m).0.phase
  unfolding receive_established
  established-StaysWith (WireMessage.join _ _ _) e h same = tt
  established-StaysWith (WireMessage.peer _ _ _ _) e h same = tt
  established-StaysWith (WireMessage.leave _) e h same = tt
  established-StaysWith (WireMessage.error _) e h same = tt
  established-StaysWith m e h same = rw h same

  in_phase-StaysWith :
      (phase : ConnectionPhase)
      → conn.phase ≡ phase
      → StaysWith p phase
      → StaysWith p (receive_in_phase phase conn out now msg).0.phase
  in_phase-StaysWith waiting_for_join e h = absurd h
  in_phase-StaysWith waiting_for_peer e h = absurd h
  in_phase-StaysWith (established est) e h = established-StaysWith msg est e h
  in_phase-StaysWith (closed reason) e h = rw e tt

  validated-StaysWith :
      (r : Result String (Unit {0}))
      → StaysWith p conn.phase
      → StaysWith p (receive_validated r conn out now msg).0.phase
  validated-StaysWith (ok _) h = in_phase-StaysWith conn.phase refl h
  validated-StaysWith (err reason) h = tt

receive_msg-StaysWith :
    {A : Type 0} (p : PeerId) (conn : Connection) (out : HubResults A) (now : UnixTimestamp)
    (msg : WireMessage)
    → StaysWith p conn.phase
    → StaysWith p (receive_msg conn out now msg).0.phase
unfolding receive_msg
receive_msg-StaysWith p conn out now msg h = elim (Bool-cases (is_closed conn)) [
  | inl e ↦ rw e h
  | inr e ↦ rw e (
      validated-StaysWith p (record conn { dirty = true; last_received = some now }) out now msg
        (validate_identity (record conn { dirty = true; last_received = some now }) msg) h)
]

-- Once established with a peer, a connection is with that peer for good: whatever arrives leaves
-- it established with the same peer or closes it.
pub receive_all-StaysWith :
    {A : Type 0} (p : PeerId) (conn : Connection) (out : HubResults A)
    (msgs : List (UnixTimestamp × WireMessage))
    → StaysWith p conn.phase
    → StaysWith p (receive_all conn out msgs).0.phase
unfolding receive_all
receive_all-StaysWith p conn out [] h = h
receive_all-StaysWith p conn out ((now, msg) ∷ rest) h =
    let (conn', out', events) = receive_msg conn out now msg in
    receive_all-StaysWith p conn' out' rest (receive_msg-StaysWith p conn out now msg h)
