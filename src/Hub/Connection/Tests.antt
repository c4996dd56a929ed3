-- ===== src/Hub/Connection/Tests.antt =====
-- A connection on concrete input.
use samod.Prelude.{
  ℕ, String, string_eq, inr, arith, ◌⊎◌, ◌+◌, ◌≤◌, ◌≡◌, refl, ◌↔◌, true, none, some, List, [], ◌∷◌,
}
use samod.Prelude.Lists.{All}
use samod.Prelude.Result.{ok}
use samod.Network.{outgoing, incoming, dialer, listener, UnixTimestamp}
use samod.Messages.{WireMessage}
use samod.Hub.Results.{HubResults, no_results, send_to}
use samod.Hub.Connection.{
  Connection, ConnectionArgs, waiting_for_peer, established, closed, validate_identity,
  remote_peer_id, handshake_complete, new_handshaking, closed_reason,
}
use samod.Hub.Connection.Receive.{receive_msg}
use samod.Hub.Connection.Identity.{IsAuthentic, validate_identity_iff, Genuine, receive_msg-Genuine}
use samod.Hub.Connection.Lifecycle.{
  receive_all, receive_all-closed, handshakes, open_handshake, handshakes-receive_all, StaysWith,
  receive_all-StaysWith,
}
use samod.Hub.Connection.Handshake.{receive_msg-rejected, handshake_completes}

abbrev out : HubResults ℕ
out = no_results ℕ

abbrev alice : ConnectionArgs
alice = record {
  direction = outgoing;
  owner = dialer 1;
  local_peer_id = "alice";
  expected_peer_id = some "bob";
  local_metadata = none;
  created_at = 10;
}

abbrev bob : ConnectionArgs
bob = record {
  direction = incoming;
  owner = listener 2;
  local_peer_id = "bob";
  expected_peer_id = none;
  local_metadata = none;
  created_at = 12;
}

abbrev waiting : Connection
waiting = record {
  id = 3;
  owner = dialer 1;
  local_peer_id = "alice";
  expected_peer_id = some "bob";
  local_metadata = none;
  phase = waiting_for_peer;
  created_at = 10;
  last_received = none;
  last_sent = some 10;
  dirty = true;
}

abbrev talking : Connection
talking = record waiting {
  phase = established (record {
    remote_peer_id = "bob";
    remote_metadata = none;
    protocol_version = "1";
    established_at = 14;
    document_subscriptions = [];
  });
}

abbrev over : Connection
over = record waiting { phase = closed "peer left" }

abbrev from_bob : WireMessage
from_bob = WireMessage.peer "bob" "1" "alice" none

abbrev from_mallory : WireMessage
from_mallory = WireMessage.peer "mallory" "1" "alice" none

abbrev talk : List (UnixTimestamp × WireMessage)
talk =
    (14, from_bob)
    ∷ (15, WireMessage.sync 5 "bob" "alice" (1 ∷ 2 ∷ []))
    ∷ (16, WireMessage.leave "bob")
    ∷ (17, from_bob)
    ∷ []

validate_identity_iff_example :
    (validate_identity waiting from_bob ≡ ok tt) ↔ IsAuthentic waiting from_bob
validate_identity_iff_example = validate_identity_iff waiting from_bob

receive_msg-Genuine_example :
    (((receive_msg waiting out 14 from_bob).2 ≡ []) ⊎ IsAuthentic waiting from_bob)
    × All (Genuine waiting) (receive_msg waiting out 14 from_bob).2
receive_msg-Genuine_example = receive_msg-Genuine waiting out 14 from_bob

mallory_refused : ¬ IsAuthentic waiting from_mallory
mallory_refused (from, to_us) = other_name (from "bob" (inr (refl, refl)))
  where
    other_name : ¬ (◌≡◌ {A = String} "mallory" "bob")
    other_name e = ground (arith, (string_eq.same_iff "mallory" "bob").1 e)

receive_msg-rejected_example :
    (reason : String) × ((receive_msg waiting out 14 from_mallory).2 ≡ [])
    × (closed_reason (receive_msg waiting out 14 from_mallory).0 ≡ some reason)
    × ((receive_msg waiting out 14 from_mallory).1.new_tasks
        ≡ send_to 3 (WireMessage.error reason) ∷ [])
receive_msg-rejected_example = receive_msg-rejected waiting out 14 from_mallory refl mallory_refused

receive_all-closed_example :
    ((receive_all over out talk).0.phase ≡ closed "peer left")
    × ((receive_all over out talk).1 ≡ out)
    × ((receive_all over out talk).2 ≡ [])
receive_all-closed_example = receive_all-closed over out "peer left" talk refl

handshakes-receive_all_example :
    handshakes (receive_all waiting out talk).2
      + open_handshake (receive_all waiting out talk).0.phase
    ≤ 1
handshakes-receive_all_example = handshakes-receive_all waiting out talk

receive_all-StaysWith_example : StaysWith "bob" (receive_all talking out talk).0.phase
receive_all-StaysWith_example = receive_all-StaysWith "bob" talking out talk refl

handshake_completes_example :
    let join_msg = WireMessage.join "alice" ("1" ∷ []) none in
    let peer_msg = WireMessage.peer "bob" "1" "alice" none in
    let (a_conn, a_out) = new_handshaking 3 out alice in
    let (b_conn, b_out) = new_handshaking 4 out bob in
    let b_got = receive_msg b_conn b_out 20 join_msg in
    let a_got = receive_msg a_conn a_out 21 peer_msg in
    (a_out.new_tasks ≡ send_to 3 join_msg ∷ [])
    × (b_got.1.new_tasks ≡ send_to 4 peer_msg ∷ [])
    × (b_got.2 ≡ handshake_complete "alice" ∷ [])
    × (remote_peer_id b_got.0 ≡ some "alice")
    × (a_got.2 ≡ handshake_complete "bob" ∷ [])
    × (remote_peer_id a_got.0 ≡ some "bob")
    × (a_got.1.new_tasks ≡ a_out.new_tasks)
handshake_completes_example = handshake_completes 3 4 alice bob out out 20 21 refl refl refl tt
