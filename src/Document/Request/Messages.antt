-- ===== src/Document/Request/Messages.antt =====
-- The messages of a search, received and generated: `receive_message` and `generate_messages` of
-- samod-core/src/actors/document/phase/request.rs.
use samod.Prelude.{
  Bool, true, false, not, ◌&&◌, Option, none, some, List, [], ◌∷◌, map, nat_eq, if◌then◌else◌,
}
use samod.Prelude.Lists.{any, is_empty}
use samod.Prelude.Map.{values, get, insert}
use samod.Network.{UnixTimestamp, Bytes}
use samod.Share.{config_eq}
use samod.Messages.{SyncMessage}
use samod.Document.Library.{Automerge}
use samod.Document.Peer.{
  PeerDocConnection, can_read, can_write, can_send, their_heads, prepare_request,
  receive_sync_message, generate_sync_messages, is_some,
}
use samod.Document.Request.{
  awaiting_send, sent, blocked_by_policy, PeerState, requesting, requested_from_us, unavailable,
  syncing, Peer, Request, or_default, set_state,
}

-- Whether sync data was applied, the document, the connection and its peer.
abbrev Applied : Automerge → Type 0
Applied am = Bool × am.Doc × PeerDocConnection am × Peer

module _ {am : Automerge} where
  abbrev apply_message :
      UnixTimestamp → am.Doc → PeerDocConnection am → Peer → Option am.Message → Applied am
  apply_message now doc c peer none = (false, doc, c, set_state unavailable peer)
  apply_message now doc c peer (some msg) =
      let (done, doc', c') = receive_sync_message now doc c msg in
      (done, doc', c', if done then peer else set_state unavailable peer)

  abbrev pub apply_sync_data :
      UnixTimestamp → am.Doc → PeerDocConnection am → Peer → Bytes → Applied am
  apply_sync_data now doc c peer bytes = apply_message now doc c peer (am.decode bytes)

  abbrev start_sync : Applied am → Applied am
  start_sync (done, doc, c, peer) =
      let heads = or_default (their_heads c) in
      (done, doc, c, if done then set_state (syncing heads) peer else peer)

  abbrev answer_request : Applied am → Applied am
  answer_request (done, doc, c, peer) =
      let heads = or_default (their_heads c) in
      let state = if is_empty heads then unavailable else syncing heads in
      (done, doc, c, if done then set_state state peer else peer)

  abbrev pub receive_as :
      UnixTimestamp → am.Doc → PeerDocConnection am → Peer → SyncMessage → PeerState → Applied am
  receive_as now doc c peer (SyncMessage.request bytes) (requesting r) =
      (false, doc, c, set_state (requested_from_us false (not (can_write c))) peer)
  receive_as now doc c peer (SyncMessage.request bytes) (syncing heads) =
      (false, doc, c, set_state unavailable peer)
  receive_as now doc c peer (SyncMessage.request bytes) _ = (false, doc, c, peer)
  receive_as now doc c peer (SyncMessage.sync bytes) (requesting r) =
      answer_request (apply_sync_data now doc c peer bytes)
  receive_as now doc c peer (SyncMessage.sync bytes) (syncing heads) =
      apply_sync_data now doc c peer bytes
  receive_as now doc c peer (SyncMessage.sync bytes) _ =
      start_sync (apply_sync_data now doc c peer bytes)
  receive_as now doc c peer SyncMessage.doc_unavailable _ =
      (false, doc, c, set_state unavailable peer)

  abbrev pub receive_from :
      UnixTimestamp → am.Doc → PeerDocConnection am → Peer → SyncMessage → Applied am
  receive_from now doc c peer (SyncMessage.sync bytes) =
      if can_write c
      then receive_as now doc c peer (SyncMessage.sync bytes) peer.state
      else apply_sync_data now doc c peer bytes
  receive_from now doc c peer msg = receive_as now doc c peer msg peer.state

  abbrev receive_known :
      UnixTimestamp
      → am.Doc
      → PeerDocConnection am
      → SyncMessage
      → Request
      → Option Peer
      → Bool × am.Doc × PeerDocConnection am × Request
  receive_known now doc c msg r none = (false, doc, c, r)
  receive_known now doc c msg r (some peer) =
      let (done, doc', c', peer') = receive_from now doc c peer msg in
      (done, doc', c', record r { peer_states = insert c.connection_id peer' r.peer_states })

  unfoldable pub receive_message :
      UnixTimestamp
      → am.Doc
      → PeerDocConnection am
      → SyncMessage
      → Request
      → Bool × am.Doc × PeerDocConnection am × Request
  receive_message now doc c msg r =
      receive_known now doc c msg r (get c.connection_id r.peer_states)

abbrev is_syncing : Peer → Bool
is_syncing peer = elim peer.state [ syncing heads ↦ not peer.policy_pending | _ ↦ false ]

abbrev pub any_peer_is_syncing : Request → Bool
any_peer_is_syncing r = any is_syncing (values r.peer_states)

module _ (am : Automerge) where
  abbrev pub as_sync : List am.Message → List SyncMessage
  as_sync msgs = map (λ msg. SyncMessage.sync (am.encode msg)) msgs

  -- Only the first message initiates the request.
  abbrev pub as_request : List am.Message → List SyncMessage
  as_request [] = []
  as_request (msg ∷ msgs) = SyncMessage.request (am.encode msg) ∷ as_sync msgs

module _ {am : Automerge} where
  abbrev pub generate_sync :
      UnixTimestamp → am.Doc → PeerDocConnection am → List SyncMessage × PeerDocConnection am
  generate_sync now doc c =
      let (msgs, c') = generate_sync_messages now doc c in (as_sync am msgs, c')

  abbrev send_request :
      UnixTimestamp → am.Doc → PeerDocConnection am → List SyncMessage × PeerDocConnection am
  send_request now doc c =
      let (msgs, c') = generate_sync_messages now doc (prepare_request c) in
      (as_request am msgs, c')

  abbrev resume :
      Peer
      → List SyncMessage × PeerDocConnection am
      → List SyncMessage × PeerDocConnection am × Peer
  resume peer (msgs, c) =
      (msgs, c, if is_empty msgs then peer else set_state (requesting sent) peer)

  -- The match on the state of the connection's peer; `busy` says that some peer is syncing.
  abbrev pub generate_as :
      Bool
      → UnixTimestamp
      → am.Doc
      → PeerDocConnection am
      → Peer
      → PeerState
      → List SyncMessage × PeerDocConnection am × Peer
  generate_as busy now doc c peer (requesting blocked_by_policy) =
      if can_write c && can_send c then resume peer (generate_sync now doc c) else ([], c, peer)
  generate_as busy now doc c peer (requesting awaiting_send) =
      let (msgs, c') = send_request now doc c in
      if busy then ([], c, peer) else (msgs, c', set_state (requesting sent) peer)
  generate_as busy now doc c peer (requesting r) = ([], c, peer)
  generate_as busy now doc c peer (syncing heads) =
      let (msgs, c') = generate_sync now doc c in (msgs, c', peer)
  generate_as busy now doc c peer unavailable = ([], c, peer)
  generate_as busy now doc c peer (requested_from_us true blocked) = ([], c, peer)
  generate_as busy now doc c peer (requested_from_us false blocked) =
      (SyncMessage.doc_unavailable ∷ [], c, set_state (requested_from_us true blocked) peer)

  abbrev generate_known :
      UnixTimestamp
      → am.Doc
      → PeerDocConnection am
      → Request
      → Option Peer
      → List SyncMessage × PeerDocConnection am × Request
  generate_known now doc c r none = ([], c, r)
  generate_known now doc c r (some peer) =
      let (msgs, c', peer') = generate_as (any_peer_is_syncing r) now doc c peer peer.state in
      (msgs, c', record r { peer_states = insert c.connection_id peer' r.peer_states })

  unfoldable pub generate_messages :
      UnixTimestamp
      → am.Doc
      → PeerDocConnection am
      → Request
      → List SyncMessage × PeerDocConnection am × Request
  generate_messages now doc c r =
      if not (can_read c)
      then ([], c, r)
      else if not (can_write c) && is_some (their_heads c)
      then (let (msgs, c') = generate_sync now doc c in (msgs, c', r))
      else generate_known now doc c r (get c.connection_id r.peer_states)
