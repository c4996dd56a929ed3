-- ===== src/Document/Actor/Sync.antt =====
-- Sync messages, sharing decisions, connections and loaded data in a document actor:
-- samod-core/src/actors/document/document_actor.rs.
use samod.Prelude.{
  ℕ, Bool, true, false, not, Option, none, some, List, [], ◌∷◌, ◌++◌, ◌==◌, nat_eq, list_eq, ltb,
  if◌then◌else◌,
}
use samod.Prelude.Lists.{is_empty}
use samod.Prelude.Map.{Map, values, get, insert, remove, contains_key}
use samod.Network.{ConnectionId, PeerId, UnixTimestamp}
use samod.Share
use samod.Share.{ShareConfig}
use samod.Messages.{SyncMessage, disconnect}
use samod.Document.Library.{Automerge}
use samod.Document.Results.{
  DocActorResult, SyncDirection, received, push_message, emit_doc_changed, send_sync,
}
use samod.Document.Load.{Chunks}
use samod.Document.Peer
use samod.Document.Peer.{
  PeerDocConnection, mark_requested, share_config, buffer_sync_message, message_bytes,
  set_share_config,
}
use samod.Document.Request.{
  add_connection as track_peer, remove_connection as forget_peer, new as new_request,
  share_policy_changed,
}
use samod.Document.Request.Messages.{receive_message}
use samod.Document.Phases.{hold_back, receive_ready}
use samod.Document.Actor.{
  DocumentActor, Turn, Phase, loading, requesting, ready, retain_tasks, in_request, store,
}

-- A statistic for a message that carries data.
abbrev pub note_message : ConnectionId → SyncDirection → ℕ → DocActorResult → DocActorResult
note_message connection_id direction bytes out =
    if ltb 0 bytes
    then record out {
      sync_message_stats =
          out.sync_message_stats
          ++ record { connection_id = connection_id; direction = direction; bytes = bytes } ∷ [];
    }
    else out

abbrev pub is_data : SyncMessage → Bool
is_data SyncMessage.doc_unavailable = false
is_data _ = true

abbrev changed : List ℕ → List ℕ → DocActorResult → DocActorResult
changed heads_before heads_after out =
    if heads_before == heads_after then out else emit_doc_changed out heads_after

abbrev pub load_all : (am : Automerge) → Chunks → am.Doc → am.Doc
load_all am [] doc = doc
load_all am ((key, chunk) ∷ chunks) doc = load_all am chunks (am.load_incremental chunk doc)

module _ {am : Automerge} where
  -- `None` is the panic of an identifier that is already there.
  unfoldable pub add_connection :
      ConnectionId → PeerId → DocumentActor am → Option (DocumentActor am)
  add_connection conn_id peer_id a =
      let c = Peer.new am peer_id conn_id in
      if contains_key conn_id a.peer_connections
      then none
      else some (record a {
        peer_connections = insert conn_id c a.peer_connections;
        phase = in_request (track_peer c) a.phase;
      })

  unfoldable pub remove_connection : ConnectionId → DocumentActor am → DocumentActor am
  remove_connection conn_id a = record a {
    peer_connections = remove conn_id a.peer_connections;
    check_policy_tasks = retain_tasks (conn_id ∷ []) a.check_policy_tasks;
    phase = in_request (forget_peer conn_id) a.phase;
  }

  -- A message that waits for the sharing decision, or one too many.
  abbrev pub hold_for_policy : ConnectionId → Bool × PeerDocConnection am → Turn am → Turn am
  hold_for_policy id (true, c) (a, out) = (store id c a, out)
  hold_for_policy id (false, c) (a, out) = (
    remove_connection id a,
    push_message out (disconnect id "too many sync messages waiting for share policy"),
  )

  -- A peer that may not read is not told whether the document exists.
  abbrev refuse : ConnectionId → SyncMessage → Turn am → Turn am
  refuse id msg (a, out) =
      (a, if is_data msg then send_sync out id a.document_id SyncMessage.doc_unavailable else out)

  abbrev pub dispatch :
      UnixTimestamp
      → ConnectionId
      → PeerDocConnection am
      → SyncMessage
      → Phase
      → Turn am
      → Bool × Turn am
  dispatch now id c msg (loading l) (a, out) =
      (false, (record a { phase = loading (hold_back id msg l) }, out))
  dispatch now id c msg (requesting request) (a, out) =
      let (done, doc, c', request') = receive_message now a.doc c msg request in
      (done, (record (store id c' a) { doc = doc; phase = requesting request' }, out))
  dispatch now id c msg ready (a, out) =
      let (done, doc, c') = receive_ready now a.doc c msg in
      (
        done,
        (record (store id c' a) { doc = doc }, changed (am.get_heads a.doc) (am.get_heads doc) out),
      )

  abbrev noted : ConnectionId → SyncMessage → Bool × Turn am → Turn am
  noted id msg (done, (a, out)) =
      (a, if done then note_message id received (message_bytes msg) out else out)

  abbrev pub handle_under :
      UnixTimestamp
      → ConnectionId
      → PeerDocConnection am
      → SyncMessage
      → UnixTimestamp
      → Turn am
      → Option ShareConfig
      → Turn am
  handle_under now id c msg received_at turn none =
      hold_for_policy id (buffer_sync_message msg received_at c) turn
  handle_under now id c msg received_at (a, out) (some config) =
      if not (Share.can_read config)
      then refuse id msg (a, out)
      else noted id msg (dispatch now id c msg a.phase (a, out))

  abbrev pub requested_by : SyncMessage → PeerDocConnection am → PeerDocConnection am
  requested_by msg c = if is_data msg then mark_requested c else c

  abbrev handle_known :
      UnixTimestamp
      → ConnectionId
      → SyncMessage
      → UnixTimestamp
      → Turn am
      → Option (PeerDocConnection am)
      → Turn am
  handle_known now id msg received_at turn none = turn
  handle_known now id msg received_at (a, out) (some c) =
      let c' = requested_by msg c in
      handle_under now id c' msg received_at (store id c' a, out) (share_config c')

  unfoldable pub handle_sync_message :
      UnixTimestamp → ConnectionId → SyncMessage → UnixTimestamp → Turn am → Turn am
  handle_sync_message now id msg received_at (a, out) =
      handle_known now id msg received_at (a, out) (get id a.peer_connections)

  abbrev pub handle_pending :
      UnixTimestamp → ConnectionId → List (SyncMessage × UnixTimestamp) → Turn am → Turn am
  handle_pending now id [] turn = turn
  handle_pending now id ((msg, received_at) ∷ pending) turn =
      handle_pending now id pending (handle_sync_message now id msg received_at turn)

  -- The connection under the decision, and the actor with it, its messages taken out.
  abbrev pub with_config : ShareConfig → PeerDocConnection am → PeerDocConnection am
  with_config config c = record (set_share_config config c).1 { pending_sync_messages = [] }

  abbrev pub decide_on :
      ConnectionId → ShareConfig → PeerDocConnection am → DocumentActor am → DocumentActor am
  decide_on id config c a =
      let previous = (set_share_config config c).0 in
      record (store id (with_config config c) a) {
        phase = in_request (share_policy_changed id previous config) a.phase;
      }

  abbrev apply_known :
      UnixTimestamp → ConnectionId → ShareConfig → Turn am → Option (PeerDocConnection am) → Turn am
  apply_known now id config turn none = turn
  apply_known now id config (a, out) (some c) =
      let pending = (set_share_config config c).1.pending_sync_messages in
      handle_pending now id pending (decide_on id config c a, out)

  unfoldable pub apply_share_policy : UnixTimestamp → ConnectionId → ShareConfig → Turn am → Turn am
  apply_share_policy now id config (a, out) =
      apply_known now id config (a, out) (get id a.peer_connections)

  abbrev pub handle_held_of : UnixTimestamp → ConnectionId → List SyncMessage → Turn am → Turn am
  handle_held_of now id [] turn = turn
  handle_held_of now id (msg ∷ msgs) turn =
      handle_held_of now id msgs (handle_sync_message now id msg now turn)

  abbrev pub handle_held : UnixTimestamp → Map ConnectionId (List SyncMessage) → Turn am → Turn am
  handle_held now [] turn = turn
  handle_held now ((id, msgs) ∷ held) turn = handle_held now held (handle_held_of now id msgs turn)

  -- What a document that was loading comes to.
  abbrev pub phase_after_load : DocumentActor am → Phase
  phase_after_load a =
      if is_empty (am.get_heads a.doc)
      then requesting (new_request a.document_id (values a.peer_connections))
      else ready

  abbrev pub leave_loading : UnixTimestamp → Phase → Turn am → Turn am
  leave_loading now (loading l) (a, out) =
      handle_held now l.pending_sync_messages (record a { phase = phase_after_load a }, out)
  leave_loading now phase turn = turn

  unfoldable pub handle_load : UnixTimestamp → Chunks → Chunks → Turn am → Turn am
  handle_load now snapshots incrementals (a, out) =
      let a' : DocumentActor am = record a {
        doc = load_all am incrementals (load_all am snapshots a.doc);
      } in
      leave_loading now a'.phase (a', out)
