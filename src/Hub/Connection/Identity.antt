-- ===== src/Hub/Connection/Identity.antt =====
-- Whom a connection listens to: `validate_identity` and `receive_msg` of
-- samod-core/src/actors/hub/connection/connection.rs.
use samod.Prelude.{
  String, ◌≡◌, refl, ◌↔◌, ◌⊎◌, inl, inr, true, Option, none, some, List, [], arith, ◌==◌, string_eq,
  Bool-cases,
}
use text.Mathlib.TextEquality.{eq_iff}
use samod.Prelude.Lists.{All, contains}
use samod.Prelude.Result.{Result, ok, err, ◌>>=◌}
use samod.Network.{PeerId, UnixTimestamp}
use samod.Messages.{WireMessage}
use samod.Hub.Results.{HubResults}
use samod.Hub.Connection.{
  Connection, EstablishedConnection, ConnectionPhase, waiting_for_peer, waiting_for_join,
  established, closed, ReceiveEvent, handshake_complete, sync_message, ephemeral_message,
  validate_identity, identity, is_closed, remote_peer_id, or_else, check_sender, check_target,
}
use samod.Hub.Connection.Receive.{
  receive_msg, receive_in_phase, receive_validated, receive_waiting_for_join,
  receive_waiting_for_peer, receive_established,
}

-- The peer that a connection is bound to: the one it shook hands with, or else the one that the
-- transport vouches for.
abbrev pub BoundTo : Connection → PeerId → Type 0
BoundTo conn p =
    (remote_peer_id conn ≡ some p)
    ⊎ ((remote_peer_id conn ≡ none) × (conn.expected_peer_id ≡ some p))

-- The named sender is the peer that the connection is bound to, if it is bound.
abbrev pub IsFrom : Connection → PeerId → Type 0
IsFrom conn s = (p : PeerId) → BoundTo conn p → s ≡ p

abbrev pub IsToUs : Connection → PeerId → Type 0
IsToUs conn t = t ≡ conn.local_peer_id

-- What each message must say. An ephemeral message names the author of what it passes on, who need
-- not be the peer.
abbrev pub IsAuthentic : Connection → WireMessage → Type 0
IsAuthentic conn (WireMessage.join s _ _) = IsFrom conn s
IsAuthentic conn (WireMessage.leave s) = IsFrom conn s
IsAuthentic conn (WireMessage.peer s _ t _) = IsFrom conn s × IsToUs conn t
IsAuthentic conn (WireMessage.request _ s t _) = IsFrom conn s × IsToUs conn t
IsAuthentic conn (WireMessage.sync _ s t _) = IsFrom conn s × IsToUs conn t
IsAuthentic conn (WireMessage.doc_unavailable s t _) = IsFrom conn s × IsToUs conn t
IsAuthentic conn (WireMessage.remote_heads_changed s t _ _) = IsFrom conn s × IsToUs conn t
IsAuthentic conn (WireMessage.remote_subscription_change s t _ _) = IsFrom conn s × IsToUs conn t
IsAuthentic conn (WireMessage.ephemeral _ t _ _ _ _) = IsToUs conn t
IsAuthentic conn (WireMessage.error _) = Unit

-- The same of the sender and the target that are checked.
record Passes (conn : Connection) (msg : WireMessage) : Type 0 where
  from_peer : (p s : PeerId) → BoundTo conn p → (identity msg).0 ≡ some s → s ≡ p
  to_us : (t : PeerId) → (identity msg).1 ≡ some t → t ≡ conn.local_peer_id

Passes-IsAuthentic :
    (conn : Connection) (msg : WireMessage) → Passes conn msg → IsAuthentic conn msg
Passes-IsAuthentic conn (WireMessage.join s v m) a = λ p b. a.from_peer p s b refl
Passes-IsAuthentic conn (WireMessage.leave s) a = λ p b. a.from_peer p s b refl
Passes-IsAuthentic conn (WireMessage.peer s v t m) a =
    (λ p b. a.from_peer p s b refl, a.to_us t refl)
Passes-IsAuthentic conn (WireMessage.request d s t b') a =
    (λ p b. a.from_peer p s b refl, a.to_us t refl)
Passes-IsAuthentic conn (WireMessage.sync d s t b') a =
    (λ p b. a.from_peer p s b refl, a.to_us t refl)
Passes-IsAuthentic conn (WireMessage.doc_unavailable s t d) a =
    (λ p b. a.from_peer p s b refl, a.to_us t refl)
Passes-IsAuthentic conn (WireMessage.remote_heads_changed s t d h) a =
    (λ p b. a.from_peer p s b refl, a.to_us t refl)
Passes-IsAuthentic conn (WireMessage.remote_subscription_change s t d h) a =
    (λ p b. a.from_peer p s b refl, a.to_us t refl)
Passes-IsAuthentic conn (WireMessage.ephemeral s t c i d b) a = a.to_us t refl
Passes-IsAuthentic conn (WireMessage.error e) a = tt

named :
    (conn : Connection) (s : PeerId)
    → IsFrom conn s
    → (p s' : PeerId) → BoundTo conn p
    → ◌≡◌ {A = Option PeerId} (some s) (some s')
    → s' ≡ p
named conn s f p s' b e = ground (arith, e, f p b)

aimed :
    (conn : Connection) (t : PeerId)
    → IsToUs conn t
    → (t' : PeerId) → ◌≡◌ {A = Option PeerId} (some t) (some t')
    → t' ≡ conn.local_peer_id
aimed conn t f t' e = ground (arith, e, f)

IsAuthentic-Passes :
    (conn : Connection) (msg : WireMessage) → IsAuthentic conn msg → Passes conn msg
IsAuthentic-Passes conn (WireMessage.join s v m) f = record {
  from_peer = named conn s f;
  to_us = λ t e. cc;
}
IsAuthentic-Passes conn (WireMessage.leave s) f = record {
  from_peer = named conn s f;
  to_us = λ t e. cc;
}
IsAuthentic-Passes conn (WireMessage.peer s v t m) (f, g) = record {
  from_peer = named conn s f;
  to_us = aimed conn t g;
}
IsAuthentic-Passes conn (WireMessage.request d s t b) (f, g) = record {
  from_peer = named conn s f;
  to_us = aimed conn t g;
}
IsAuthentic-Passes conn (WireMessage.sync d s t b) (f, g) = record {
  from_peer = named conn s f;
  to_us = aimed conn t g;
}
IsAuthentic-Passes conn (WireMessage.doc_unavailable s t d) (f, g) = record {
  from_peer = named conn s f;
  to_us = aimed conn t g;
}
IsAuthentic-Passes conn (WireMessage.remote_heads_changed s t d h) (f, g) = record {
  from_peer = named conn s f;
  to_us = aimed conn t g;
}
IsAuthentic-Passes conn (WireMessage.remote_subscription_change s t d h) (f, g) = record {
  from_peer = named conn s f;
  to_us = aimed conn t g;
}
IsAuthentic-Passes conn (WireMessage.ephemeral s t c i d b) g = record {
  from_peer = λ p s' b e. cc;
  to_us = aimed conn t g;
}
IsAuthentic-Passes conn (WireMessage.error e) g = record {
  from_peer = λ p s' b e. cc;
  to_us = λ t e. cc;
}

or_else_iff :
    (a b : Option PeerId) (p : PeerId)
    → (or_else a b ≡ some p) ↔ ((a ≡ some p) ⊎ ((a ≡ none) × (b ≡ some p)))
or_else_iff none b p = (λ h. inr (refl, h), λ h. ground arith)
or_else_iff (some a) b p = (λ h. inl h, λ h. ground arith)

check_sender_sound :
    (b a : Option PeerId) (p s : PeerId)
    → check_sender b a ≡ ok tt
    → b ≡ some p
    → a ≡ some s
    → s ≡ p
check_sender_sound none a p s h eb ea = cc
check_sender_sound (some q) none p s h eb ea = cc
check_sender_sound (some q) (some t) p s h eb ea = ground (arith, eq_iff q t)

check_sender_complete :
    (b a : Option PeerId)
    → ((p s : PeerId) → b ≡ some p → a ≡ some s → s ≡ p)
    → check_sender b a ≡ ok tt
check_sender_complete none a h = refl
check_sender_complete (some q) none h = refl
check_sender_complete (some q) (some t) h = ground (arith, eq_iff q t, h q t refl refl)

check_target_sound :
    (local : PeerId) (a : Option PeerId) (t : PeerId)
    → check_target local a ≡ ok tt
    → a ≡ some t
    → t ≡ local
check_target_sound local none t h e = cc
check_target_sound local (some u) t h e = ground (arith, eq_iff u local)

check_target_complete :
    (local : PeerId) (a : Option PeerId)
    → ((t : PeerId) → a ≡ some t → t ≡ local)
    → check_target local a ≡ ok tt
check_target_complete local none h = refl
check_target_complete local (some u) h = ground (arith, eq_iff u local, h u refl)

both_checks : (r q : Result String (Unit {0})) → (r >>= λ _. q) ≡ ok tt → (r ≡ ok tt) × (q ≡ ok tt)
both_checks (ok u) q h = (refl, h)
both_checks (err e) q h = cc

-- A message passes exactly if it says what `IsAuthentic` asks: its sender, where it names one other
-- than as the author of an ephemeral message, is the peer that the connection shook hands with, or
-- before that the one that the transport vouches for, if there is such a peer; and its target, where
-- it names one, is the local peer.
pub validate_identity_iff :
    (conn : Connection) (msg : WireMessage)
    → (validate_identity conn msg ≡ ok tt) ↔ IsAuthentic conn msg
unfolding validate_identity
validate_identity_iff conn msg = (passes, admitted)
  where
    bound : Option PeerId
    bound = or_else (remote_peer_id conn) conn.expected_peer_id

    checked : validate_identity conn msg ≡ ok tt → Passes conn msg
    checked h =
        let (sender, target) = both_checks (check_sender bound (identity msg).0) _ h in
        record {
          from_peer = λ p s b e.
              check_sender_sound bound (identity msg).0 p s sender
                ((or_else_iff (remote_peer_id conn) conn.expected_peer_id p).1 b) e;
          to_us = λ t e. check_target_sound conn.local_peer_id (identity msg).1 t target e;
        }

    passes : validate_identity conn msg ≡ ok tt → IsAuthentic conn msg
    passes h = Passes-IsAuthentic conn msg (checked h)

    admitted : IsAuthentic conn msg → validate_identity conn msg ≡ ok tt
    admitted b =
        let a = IsAuthentic-Passes conn msg b in
        rw
          (check_sender_complete bound (identity msg).0 (λ p s b e.
            a.from_peer p s ((or_else_iff (remote_peer_id conn) conn.expected_peer_id p).0 b) e))
          (check_target_complete conn.local_peer_id (identity msg).1 a.to_us)

-- What an event may say, given the connection that raises it.
abbrev pub Genuine : Connection → ReceiveEvent → Type 0
Genuine conn (handshake_complete p) =
    (remote_peer_id conn ≡ none) × ((q : PeerId) → conn.expected_peer_id ≡ some q → p ≡ q)
Genuine conn (sync_message doc_id sender_id target_id msg) =
    (remote_peer_id conn ≡ some sender_id) × (target_id ≡ conn.local_peer_id)
Genuine conn (ephemeral_message doc_id sender_id target_id count session_id msg) =
    (p : PeerId) × (remote_peer_id conn ≡ some p) × (target_id ≡ conn.local_peer_id)

module _ {A : Type 0} (conn : Connection) (out : HubResults A) (now : UnixTimestamp) where
  join-Genuine :
      (msg : WireMessage)
      → conn.phase ≡ waiting_for_join
      → IsAuthentic conn msg
      → All (Genuine conn) (receive_waiting_for_join conn out now msg).2
  unfolding receive_waiting_for_join
  join-Genuine (WireMessage.join sender_id versions metadata) e a =
      elim (Bool-cases (contains versions "1")) [
        | inl h ↦ rw h ((ground (arith, e), λ q x. a q (inr (ground (arith, e), x))), tt)
        | inr h ↦ rw h tt
      ]
  join-Genuine msg e a = tt

  peer-Genuine :
      (msg : WireMessage)
      → conn.phase ≡ waiting_for_peer
      → IsAuthentic conn msg
      → All (Genuine conn) (receive_waiting_for_peer conn out now msg).2
  unfolding receive_waiting_for_peer
  peer-Genuine (WireMessage.peer sender_id version target_id metadata) e a =
      elim (Bool-cases (version == "1")) [
        | inl h ↦ rw h ((ground (arith, e), λ q x. a.0 q (inr (ground (arith, e), x))), tt)
        | inr h ↦ rw h tt
      ]
  peer-Genuine msg e a = tt

  from_remote :
      (est : EstablishedConnection) (s : PeerId)
      → conn.phase ≡ established est
      → IsFrom conn s
      → remote_peer_id conn ≡ some s
  from_remote est s e from =
      let bound : remote_peer_id conn ≡ some est.remote_peer_id = ground (arith, e) in
      ground (arith, bound, from est.remote_peer_id (inl bound))

  established-Genuine :
      (msg : WireMessage) (est : EstablishedConnection)
      → conn.phase ≡ established est
      → IsAuthentic conn msg
      → All (Genuine conn) (receive_established conn out now msg).2
  unfolding receive_established
  established-Genuine (WireMessage.request d s t b) est e a = ((from_remote est s e a.0, a.1), tt)
  established-Genuine (WireMessage.sync d s t b) est e a = ((from_remote est s e a.0, a.1), tt)
  established-Genuine (WireMessage.doc_unavailable s t d) est e a =
      ((from_remote est s e a.0, a.1), tt)
  established-Genuine (WireMessage.ephemeral s t c i d b) est e a =
      ((est.remote_peer_id, ground (arith, e), a), tt)
  established-Genuine msg est e a = tt

  in_phase-Genuine :
      (msg : WireMessage) (phase : ConnectionPhase)
      → conn.phase ≡ phase
      → IsAuthentic conn msg
      → All (Genuine conn) (receive_in_phase phase conn out now msg).2
  in_phase-Genuine msg waiting_for_join e a = join-Genuine msg e a
  in_phase-Genuine msg waiting_for_peer e a = peer-Genuine msg e a
  in_phase-Genuine msg (established est) e a = established-Genuine msg est e a
  in_phase-Genuine msg (closed reason) e a = tt

  -- No event, or a message that says what it must; and what the events say.
  abbrev Heard : WireMessage → List ReceiveEvent → Type 0
  Heard msg events = ((events ≡ []) ⊎ IsAuthentic conn msg) × All (Genuine conn) events

  validated-Heard :
      (msg : WireMessage) (r : Result String (Unit {0}))
      → (r ≡ ok tt → IsAuthentic conn msg)
      → Heard msg (receive_validated r conn out now msg).2
  validated-Heard msg (ok _) a = (inr (a refl), in_phase-Genuine msg conn.phase refl (a refl))
  validated-Heard msg (err reason) a = (inl refl, tt)

-- Whatever arrives, in whatever phase: an event is raised only for a message whose sender, unless it
-- is an ephemeral message's, is the bound peer, and whose target is the local peer, where it names
-- them; a handshake completes only where none had, and with the peer that the transport vouched for,
-- if it did; a sync message is passed on only in the name of the peer of the handshake, and an
-- ephemeral message, whose sender is not checked, only after a handshake; and sync and ephemeral
-- messages that are passed on are addressed to the local peer.
pub receive_msg-Genuine :
    {A : Type 0} (conn : Connection) (out : HubResults A) (now : UnixTimestamp) (msg : WireMessage)
    → (((receive_msg conn out now msg).2 ≡ []) ⊎ IsAuthentic conn msg)
      × All (Genuine conn) (receive_msg conn out now msg).2
unfolding receive_msg
receive_msg-Genuine conn out now msg = elim (Bool-cases (is_closed conn)) [
  | inl h ↦ rw h (inl refl, tt)
  | inr h ↦ rw h (
      validated-Heard (record conn { dirty = true; last_received = some now }) out now msg
        (validate_identity conn' msg) (validate_identity_iff conn' msg).0)
]
  where
    conn' : Connection
    conn' = record conn { dirty = true; last_received = some now }
