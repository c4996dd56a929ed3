-- ===== src/Hub/Connection/Handshake.antt =====
-- Both ends of a handshake: `new_handshaking` and `receive_msg` of
-- samod-core/src/actors/hub/connection/connection.rs.
use samod.Prelude.{
  String, ◌≡◌, refl, inl, inr, true, false, Option, none, some, [], ◌∷◌, ◌++◌, arith,
}
use samod.Prelude.Result.{Result, ok, err}
use samod.Network.{ConnectionId, PeerId, UnixTimestamp, outgoing, incoming, PeerMetadata}
use samod.Messages.{WireMessage}
use samod.Hub.Results
use samod.Hub.Results.{HubResults, send_to}
use samod.Hub.Connection.{
  Connection, ConnectionPhase, waiting_for_join, waiting_for_peer, ConnectionArgs, new_handshaking,
  validate_identity, remote_peer_id, handshake_complete, is_closed, closed_reason,
}
use samod.Hub.Connection.Receive.{receive_msg, receive_waiting_for_join, receive_waiting_for_peer}
use samod.Hub.Connection.Identity.{BoundTo, IsAuthentic, validate_identity_iff}

-- The transport vouches for `p`, or for nobody.
abbrev pub Accepts : Option PeerId → PeerId → Type 0
Accepts none p = Unit
Accepts (some q) p = q ≡ p

refused_for :
    {A : Type 0} (conn : Connection) (out : HubResults A) (now : UnixTimestamp) (msg : WireMessage)
    (reason : String)
    → is_closed conn ≡ false
    → validate_identity conn msg ≡ err reason
    → ((receive_msg conn out now msg).2 ≡ [])
      × (closed_reason (receive_msg conn out now msg).0 ≡ some reason)
      × ((receive_msg conn out now msg).1.new_tasks
          ≡ out.new_tasks ++ send_to conn.id (WireMessage.error reason) ∷ [])
unfolding receive_msg validate_identity
refused_for conn out now msg reason e r = ground (arith, r)

-- On an open connection, a message whose sender is not the peer that the connection is bound to, or
-- whose target is not the local peer, is answered with one error message that gives a reason; the
-- connection is closed for that reason and raises no event. The sender of an ephemeral message is not
-- looked at.
pub receive_msg-rejected :
    {A : Type 0} (conn : Connection) (out : HubResults A) (now : UnixTimestamp) (msg : WireMessage)
    → is_closed conn ≡ false
    → ¬ IsAuthentic conn msg
    → (reason : String) × ((receive_msg conn out now msg).2 ≡ [])
      × (closed_reason (receive_msg conn out now msg).0 ≡ some reason)
      × ((receive_msg conn out now msg).1.new_tasks
          ≡ out.new_tasks ++ send_to conn.id (WireMessage.error reason) ∷ [])
receive_msg-rejected conn out now msg e wrong = outcome (validate_identity conn msg) refl
  where
    outcome :
        (r : Result String (Unit {0}))
        → validate_identity conn msg ≡ r
        → (reason : String) × ((receive_msg conn out now msg).2 ≡ [])
          × (closed_reason (receive_msg conn out now msg).0 ≡ some reason)
          × ((receive_msg conn out now msg).1.new_tasks
              ≡ out.new_tasks ++ send_to conn.id (WireMessage.error reason) ∷ [])
    outcome (ok _) v = absurd (wrong ((validate_identity_iff conn msg).0 v))
    outcome (err reason) v =
        let (silent, over, told) = refused_for conn out now msg reason e v in
        (reason, silent, over, told)

Accepts-only : (o : Option PeerId) (p q : PeerId) → Accepts o p → o ≡ some q → q ≡ p
Accepts-only none p q a e = cc
Accepts-only (some r) p q a e = ground arith

unbound_sender :
    (conn : Connection) (p q : PeerId)
    → remote_peer_id conn ≡ none
    → Accepts conn.expected_peer_id p
    → BoundTo conn q
    → p ≡ q
unbound_sender conn p q r a (inl h) = cc
unbound_sender conn p q r a (inr (_, h)) =
    ground (arith, Accepts-only conn.expected_peer_id p q a h)

module _ {A : Type 0} (conn : Connection) (out : HubResults A) (now : UnixTimestamp)
    (p : PeerId) where
  -- The accepting end.
  receive_join :
      (meta : Option PeerMetadata)
      → conn.phase ≡ waiting_for_join
      → Accepts conn.expected_peer_id p
      → let r = receive_msg conn out now (WireMessage.join p ("1" ∷ []) meta) in
        (r.2 ≡ handshake_complete p ∷ [])
        × (remote_peer_id r.0 ≡ some p)
        × (r.1.new_tasks
            ≡ out.new_tasks
              ++ send_to conn.id (WireMessage.peer conn.local_peer_id "1" p conn.local_metadata)
                ∷ [])
  unfolding receive_msg receive_waiting_for_join validate_identity
  receive_join meta e a = ground (arith, e, accepted)
    where
      accepted : validate_identity conn (WireMessage.join p ("1" ∷ []) meta) ≡ ok tt
      accepted =
          (validate_identity_iff conn (WireMessage.join p ("1" ∷ []) meta)).1
            (λ q b. unbound_sender conn p q (ground (arith, e)) a b)

  -- The dialling end.
  receive_peer :
      (meta : Option PeerMetadata)
      → conn.phase ≡ waiting_for_peer
      → Accepts conn.expected_peer_id p
      → let r = receive_msg conn out now (WireMessage.peer p "1" conn.local_peer_id meta) in
        (r.2 ≡ handshake_complete p ∷ [])
        × (remote_peer_id r.0 ≡ some p)
        × (r.1.new_tasks ≡ out.new_tasks)
  unfolding receive_msg receive_waiting_for_peer validate_identity
  receive_peer meta e a = ground (arith, e, accepted)
    where
      accepted : validate_identity conn (WireMessage.peer p "1" conn.local_peer_id meta) ≡ ok tt
      accepted =
          (validate_identity_iff conn (WireMessage.peer p "1" conn.local_peer_id meta)).1
            (λ q b. unbound_sender conn p q (ground (arith, e)) a b, refl)

-- The connection that each end starts with.
abbrev fresh : ConnectionPhase → Option UnixTimestamp → ConnectionId → ConnectionArgs → Connection
fresh phase last_sent id args = record {
  id = id;
  owner = args.owner;
  local_peer_id = args.local_peer_id;
  expected_peer_id = args.expected_peer_id;
  local_metadata = args.local_metadata;
  phase = phase;
  created_at = args.created_at;
  last_received = none;
  last_sent = last_sent;
  dirty = true;
}

module _ {A : Type 0} (id : ConnectionId) (out : HubResults A) (args : ConnectionArgs) where
  new_outgoing :
      args.direction ≡ outgoing
      → new_handshaking id out args ≡ (
        fresh waiting_for_peer (some args.created_at) id args,
        Results.send out id (WireMessage.join args.local_peer_id ("1" ∷ []) args.local_metadata),
      )
  unfolding new_handshaking
  new_outgoing e = ground (arith, e)

  new_incoming :
      args.direction ≡ incoming
      → new_handshaking id out args ≡ (fresh waiting_for_join none id args, out)
  unfolding new_handshaking
  new_incoming e = ground (arith, e)

-- A handshake between two peers that accept one another comes to an end: the dialling end queues
-- a join message; the accepting end, given that message, is established with the dialler and
-- queues a peer message; the dialling end, given that, is established with the accepting peer and
-- sends no more.
pub handshake_completes :
    {A : Type 0} (a_id b_id : ConnectionId) (a b : ConnectionArgs) (a_out b_out : HubResults A)
    (now later : UnixTimestamp)
    → a.direction ≡ outgoing
    → b.direction ≡ incoming
    → Accepts a.expected_peer_id b.local_peer_id
    → Accepts b.expected_peer_id a.local_peer_id
    → let join_msg = WireMessage.join a.local_peer_id ("1" ∷ []) a.local_metadata in
      let peer_msg = WireMessage.peer b.local_peer_id "1" a.local_peer_id b.local_metadata in
      let (a_conn, a_out') = new_handshaking a_id a_out a in
      let (b_conn, b_out') = new_handshaking b_id b_out b in
      let b_got = receive_msg b_conn b_out' now join_msg in
      let a_got = receive_msg a_conn a_out' later peer_msg in
      (a_out'.new_tasks ≡ a_out.new_tasks ++ send_to a_id join_msg ∷ [])
      × (b_got.1.new_tasks ≡ b_out.new_tasks ++ send_to b_id peer_msg ∷ [])
      × (b_got.2 ≡ handshake_complete a.local_peer_id ∷ [])
      × (remote_peer_id b_got.0 ≡ some a.local_peer_id)
      × (a_got.2 ≡ handshake_complete b.local_peer_id ∷ [])
      × (remote_peer_id a_got.0 ≡ some b.local_peer_id)
      × (a_got.1.new_tasks ≡ a_out'.new_tasks)
handshake_completes a_id b_id a b a_out b_out now later out_a in_b acc_a acc_b =
    rw (new_outgoing a_id a_out a out_a, new_incoming b_id b_out b in_b)
      (let join_msg = WireMessage.join a.local_peer_id ("1" ∷ []) a.local_metadata in
        let (completed, peer, answered) =
          receive_join (fresh waiting_for_join none b_id b) b_out now a.local_peer_id
            a.local_metadata refl acc_b in
        let (completed', peer', quiet) =
          receive_peer (fresh waiting_for_peer (some a.created_at) a_id a)
            (Results.send a_out a_id join_msg) later b.local_peer_id b.local_metadata refl acc_a in
        (refl, answered, completed, peer, completed', peer', quiet))
