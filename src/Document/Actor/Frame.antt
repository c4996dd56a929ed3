-- ===== src/Document/Actor/Frame.antt =====
-- What the inputs of a document actor keep of its connections, one at a time:
-- samod-core/src/actors/document/document_actor.rs.
use samod.Prelude.{
  Bool, true, false, not, ◌&&◌, none, [], ◌≡◌, nat_eq, inl, inr, Bool-cases, Option-cases,
}
use samod.Prelude.Map.{get}
use samod.Network.{Bytes, ConnectionId, PeerId, UnixTimestamp}
use samod.Share.{ShareConfig}
use samod.Messages.{SyncMessage}
use samod.Document.Library.{Automerge}
use samod.Document.Peer.{
  PeerDocConnection, SharePolicyState, new, share_config, can_read, can_write, can_send,
  mark_requested, buffer_sync_message, set_share_config, receive_sync_message, prepare_request,
  generate_sync_messages, pop, their_heads, is_some,
}
use samod.Document.Request.{Request, Peer, PeerState, Requesting}
use samod.Document.Request.Messages.{
  receive_message, receive_from, receive_as, apply_sync_data, generate_messages, generate_as,
  any_peer_is_syncing,
}
use samod.Document.Phases.{receive_ready, generate_ready}

-- A property of a connection that the exchange of sync messages keeps.
pub record KeptBySync {am : Automerge} (P : PeerDocConnection am → Type 0) : Type 0 where
  pub received :
      (now : UnixTimestamp) (doc : am.Doc) (c : PeerDocConnection am) (msg : am.Message)
      → P c
      → P (receive_sync_message now doc c msg).2
  pub prepared : (c : PeerDocConnection am) → P c → P (prepare_request c)
  pub generated :
      (now : UnixTimestamp) (doc : am.Doc) (c : PeerDocConnection am)
      → P c
      → P (generate_sync_messages now doc c).1

-- A property of a connection that everything a document actor does with one keeps.
pub record Kept {am : Automerge} (P : PeerDocConnection am → Type 0) : Type 0 where
  pub by_sync : KeptBySync P
  pub of_new : (peer_id : PeerId) (id : ConnectionId) → P (new am peer_id id)
  pub marked : (c : PeerDocConnection am) → P c → P (mark_requested c)
  pub buffered :
      (c : PeerDocConnection am) (msg : SyncMessage) (at : UnixTimestamp)
      → P c
      → share_config c ≡ none
      → P (buffer_sync_message msg at c).1
  pub decided :
      (c : PeerDocConnection am) (config : ShareConfig)
      → P c
      → P (record (set_share_config config c).1 { pending_sync_messages = [] })
  pub checked :
      (c : PeerDocConnection am)
      → P c
      → share_config c ≡ none
      → P (record c { share_policy = SharePolicyState.loading })
  pub popped : (c : PeerDocConnection am) → P c → P (pop c).1

module _ {am : Automerge} {P : PeerDocConnection am → Type 0} (kept : KeptBySync P) where
  apply_sync_data-Kept :
      (now : UnixTimestamp) (doc : am.Doc) (c : PeerDocConnection am) (peer : Peer) (bytes : Bytes)
      → P c
      → P (apply_sync_data now doc c peer bytes).2
  apply_sync_data-Kept now doc c peer bytes h = elim (Option-cases (am.decode bytes)) [
    | inl bad ↦ rw bad h
    | inr (msg, good) ↦ rw good (kept.received now doc c msg h)
  ]

  receive_as-Kept :
      (now : UnixTimestamp) (doc : am.Doc) (c : PeerDocConnection am) (peer : Peer)
      (msg : SyncMessage) (state : PeerState)
      → P c
      → P (receive_as now doc c peer msg state).2
  receive_as-Kept now doc c peer (SyncMessage.request bytes) (PeerState.requesting r) h = h
  receive_as-Kept now doc c peer (SyncMessage.request bytes) (PeerState.syncing heads) h = h
  receive_as-Kept now doc c peer (SyncMessage.request bytes) PeerState.unavailable h = h
  receive_as-Kept now doc c peer (SyncMessage.request bytes) (PeerState.requested_from_us a b) h = h
  receive_as-Kept now doc c peer (SyncMessage.sync bytes) (PeerState.requesting r) h =
      apply_sync_data-Kept now doc c peer bytes h
  receive_as-Kept now doc c peer (SyncMessage.sync bytes) (PeerState.syncing heads) h =
      apply_sync_data-Kept now doc c peer bytes h
  receive_as-Kept now doc c peer (SyncMessage.sync bytes) PeerState.unavailable h =
      apply_sync_data-Kept now doc c peer bytes h
  receive_as-Kept now doc c peer (SyncMessage.sync bytes) (PeerState.requested_from_us a b) h =
      apply_sync_data-Kept now doc c peer bytes h
  receive_as-Kept now doc c peer SyncMessage.doc_unavailable state h = h

  receive_from-Kept :
      (now : UnixTimestamp) (doc : am.Doc) (c : PeerDocConnection am) (peer : Peer)
      (msg : SyncMessage)
      → P c
      → P (receive_from now doc c peer msg).2
  receive_from-Kept now doc c peer (SyncMessage.sync bytes) h = elim (Bool-cases (can_write c)) [
    | inl w ↦ rw w (receive_as-Kept now doc c peer (SyncMessage.sync bytes) peer.state h)
    | inr r ↦ rw r (apply_sync_data-Kept now doc c peer bytes h)
  ]
  receive_from-Kept now doc c peer (SyncMessage.request bytes) h =
      receive_as-Kept now doc c peer (SyncMessage.request bytes) peer.state h
  receive_from-Kept now doc c peer SyncMessage.doc_unavailable h = h

  pub receive_message-Kept :
      (now : UnixTimestamp) (doc : am.Doc) (c : PeerDocConnection am) (msg : SyncMessage)
      (r : Request)
      → P c
      → P (receive_message now doc c msg r).2
  unfolding receive_message
  receive_message-Kept now doc c msg r h = elim (Option-cases (get c.connection_id r.peer_states)) [
    | inl absent ↦ rw absent h
    | inr (peer, found) ↦ rw found (receive_from-Kept now doc c peer msg h)
  ]

  pub receive_ready-Kept :
      (now : UnixTimestamp) (doc : am.Doc) (c : PeerDocConnection am) (msg : SyncMessage)
      → P c
      → P (receive_ready now doc c msg).2
  unfolding receive_ready
  receive_ready-Kept now doc c (SyncMessage.request bytes) h =
      elim (Option-cases (am.decode bytes)) [
        | inl bad ↦ rw bad h
        | inr (msg, good) ↦ rw good (kept.received now doc c msg h)
      ]
  receive_ready-Kept now doc c (SyncMessage.sync bytes) h = elim (Option-cases (am.decode bytes)) [
    | inl bad ↦ rw bad h
    | inr (msg, good) ↦ rw good (kept.received now doc c msg h)
  ]
  receive_ready-Kept now doc c SyncMessage.doc_unavailable h = h

  generate_as-Kept :
      (busy : Bool) (now : UnixTimestamp) (doc : am.Doc) (c : PeerDocConnection am) (peer : Peer)
      (state : PeerState)
      → P c
      → P (generate_as busy now doc c peer state).1
  generate_as-Kept busy now doc c peer (PeerState.requesting Requesting.blocked_by_policy) h =
      elim (Bool-cases (can_write c && can_send c)) [
        | inl go ↦ rw go (kept.generated now doc c h)
        | inr stay ↦ rw stay h
      ]
  generate_as-Kept true now doc c peer (PeerState.requesting Requesting.awaiting_send) h = h
  generate_as-Kept false now doc c peer (PeerState.requesting Requesting.awaiting_send) h =
      kept.generated now doc (prepare_request c) (kept.prepared c h)
  generate_as-Kept busy now doc c peer (PeerState.requesting Requesting.sent) h = h
  generate_as-Kept busy now doc c peer (PeerState.requesting Requesting.awaiting_share_policy) h = h
  generate_as-Kept busy now doc c peer (PeerState.syncing heads) h = kept.generated now doc c h
  generate_as-Kept busy now doc c peer PeerState.unavailable h = h
  generate_as-Kept busy now doc c peer (PeerState.requested_from_us true blocked) h = h
  generate_as-Kept busy now doc c peer (PeerState.requested_from_us false blocked) h = h

  pub generate_messages-Kept :
      (now : UnixTimestamp) (doc : am.Doc) (c : PeerDocConnection am) (r : Request)
      → P c
      → P (generate_messages now doc c r).1
  unfolding generate_messages
  generate_messages-Kept now doc c r h = elim (Bool-cases (can_read c)) [
    | inr denied ↦ rw denied h
    | inl reads ↦ elim (Bool-cases (not (can_write c) && is_some (their_heads c))) [
      | inl only ↦ rw (reads, only) (kept.generated now doc c h)
      | inr both ↦ elim (Option-cases (get c.connection_id r.peer_states)) [
        | inl absent ↦ rw (reads, both, absent) h
        | inr (peer, found) ↦
            rw (reads, both, found)
              (generate_as-Kept (any_peer_is_syncing r) now doc c peer peer.state h)
      ]
    ]
  ]

  pub generate_ready-Kept :
      (now : UnixTimestamp) (doc : am.Doc) (c : PeerDocConnection am)
      → P c
      → P (generate_ready now doc c).1
  unfolding generate_ready
  generate_ready-Kept now doc c h = elim (Bool-cases (can_send c)) [
    | inl go ↦ rw go (kept.generated now doc c h)
    | inr stay ↦ rw stay h
  ]
