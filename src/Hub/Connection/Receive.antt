-- ===== src/Hub/Connection/Receive.antt =====
-- What a connection does with a message: `receive_msg` of
-- samod-core/src/actors/hub/connection/connection.rs, one function for each phase.
use Prim.Native.String.{◌++◌ as concat}
use samod.Prelude.{String, true, Option, some, List, [], ◌∷◌, ◌==◌, string_eq, if◌then◌else◌}
use samod.Prelude.Lists.{contains}
use samod.Prelude.Result.{Result, ok, err}
use samod.Network.{PeerId, UnixTimestamp, PeerMetadata}
use samod.Messages.{SyncMessage, WireMessage}
use samod.Hub.Results.{HubResults}
use samod.Hub.Connection.{
  Connection, ConnectionPhase, waiting_for_peer, waiting_for_join, established, closed,
  ReceiveEvent, handshake_complete, sync_message, ephemeral_message, is_closed, close, send, reject,
  validate_identity,
}

-- `Established` with no document subscribed yet.
abbrev establish : Connection → UnixTimestamp → PeerId → String → Option PeerMetadata → Connection
establish conn now sender_id version metadata = record conn {
  phase = established (record {
    remote_peer_id = sender_id;
    remote_metadata = metadata;
    protocol_version = version;
    established_at = now;
    document_subscriptions = [];
  });
}

abbrev pub Received : Type 0 → Type 0
Received A = Connection × HubResults A × List ReceiveEvent

module _ {A : Type 0} where
  unfoldable pub receive_waiting_for_join :
      Connection → HubResults A → UnixTimestamp → WireMessage → Received A
  receive_waiting_for_join conn out now (WireMessage.join sender_id versions metadata) =
      if contains versions "1"
      then (let (conn', out') =
            send conn out now
              (WireMessage.peer conn.local_peer_id "1" sender_id conn.local_metadata) in
          (establish conn' now sender_id "1" metadata, out', handshake_complete sender_id ∷ []))
      else reject conn out now "unsupported protocol version"
  receive_waiting_for_join conn out now _ = reject conn out now "expected a join message"

  unfoldable pub receive_waiting_for_peer :
      Connection → HubResults A → UnixTimestamp → WireMessage → Received A
  receive_waiting_for_peer conn out now (WireMessage.peer sender_id version target_id metadata) =
      if version == "1"
      then (establish conn now sender_id version metadata, out, handshake_complete sender_id ∷ [])
      else reject conn out now "unsupported protocol version"
  receive_waiting_for_peer conn out now _ = reject conn out now "expected a peer message"

  unfoldable pub receive_established :
      Connection → HubResults A → UnixTimestamp → WireMessage → Received A
  receive_established conn out now (WireMessage.join _ _ _) =
      reject conn out now "unexpected join or peer message"
  receive_established conn out now (WireMessage.peer _ _ _ _) =
      reject conn out now "unexpected join or peer message"
  receive_established conn out now (WireMessage.leave sender_id) = (close conn "peer left", out, [])
  receive_established conn out now (WireMessage.request doc_id sender_id target_id bytes) =
      (conn, out, sync_message doc_id sender_id target_id (SyncMessage.request bytes) ∷ [])
  receive_established conn out now (WireMessage.sync doc_id sender_id target_id bytes) =
      (conn, out, sync_message doc_id sender_id target_id (SyncMessage.sync bytes) ∷ [])
  receive_established conn out now (WireMessage.doc_unavailable sender_id target_id doc_id) =
      (conn, out, sync_message doc_id sender_id target_id SyncMessage.doc_unavailable ∷ [])
  receive_established conn out now
        (WireMessage.ephemeral sender_id target_id count session_id doc_id bytes) =
      (conn, out, ephemeral_message doc_id sender_id target_id count session_id bytes ∷ [])
  receive_established conn out now (WireMessage.remote_heads_changed _ _ _ _) = (conn, out, [])
  receive_established conn out now (WireMessage.remote_subscription_change _ _ _ _) =
      (conn, out, [])
  receive_established conn out now (WireMessage.error message) =
      (close conn (concat "peer reported an error: " message), out, [])

  abbrev pub receive_in_phase :
      ConnectionPhase → Connection → HubResults A → UnixTimestamp → WireMessage → Received A
  receive_in_phase waiting_for_join conn out now msg = receive_waiting_for_join conn out now msg
  receive_in_phase waiting_for_peer conn out now msg = receive_waiting_for_peer conn out now msg
  receive_in_phase (established e) conn out now msg = receive_established conn out now msg
  receive_in_phase (closed reason) conn out now msg = (conn, out, [])

  abbrev pub receive_validated :
      Result String (Unit {0})
      → Connection
      → HubResults A
      → UnixTimestamp
      → WireMessage
      → Received A
  receive_validated (err reason) conn out now msg = reject conn out now reason
  receive_validated (ok _) conn out now msg = receive_in_phase conn.phase conn out now msg

  unfoldable pub receive_msg : Connection → HubResults A → UnixTimestamp → WireMessage → Received A
  receive_msg conn out now msg =
      let conn' = record conn { dirty = true; last_received = some now } in
      if is_closed conn'
      then (conn', out, [])
      else receive_validated (validate_identity conn' msg) conn' out now msg
