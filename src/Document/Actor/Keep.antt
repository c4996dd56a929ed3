-- ===== src/Document/Actor/Keep.antt =====
-- The properties of connections that a document actor keeps, over its inputs and its steps:
-- samod-core/src/actors/document/document_actor.rs.
use samod.Prelude.{
  Bool, true, false, Option, none, some, List, [], ◌∷◌, ◌≡◌, refl, nat_eq, list_eq, inl, inr,
  Bool-cases, Option-cases,
}
use samod.Prelude.Lists.{All}
use samod.Prelude.Map.{Map, values, get, get-All, insert-All, remove-All}
use samod.Network.{ConnectionId, UnixTimestamp}
use samod.Share
use samod.Share.{ShareConfig}
use samod.Messages.{SyncMessage}
use samod.Document.Library.{Automerge}
use samod.Document.Load.{LoadComplete, take_complete}
use samod.Document.Peer.{PeerDocConnection, share_config, buffer_sync_message, set_share_config}
use samod.Document.Request.Messages.{receive_message}
use samod.Document.Phases.{receive_ready}
use samod.Document.Actor.{DocumentActor, Turn, Phase, loading, requesting, ready, store}
use samod.Document.Actor.Sync.{
  remove_connection, handle_sync_message, hold_for_policy, handle_under, requested_by, is_data,
  dispatch, apply_share_policy, with_config, decide_on, leave_loading, phase_after_load, load_all,
  handle_pending, handle_held, handle_held_of, handle_load,
}
use samod.Document.Actor.Input.{apply_each, after_io, finish_load}
use samod.Document.Actor.Frame.{Kept, receive_message-Kept, receive_ready-Kept}

abbrev pub AllPeers : {am : Automerge} → (PeerDocConnection am → Type 0) → DocumentActor am → Type 0
AllPeers P a = All P (values a.peer_connections)

module _ {am : Automerge} {P : PeerDocConnection am → Type 0} (kept : Kept P) where
  pub store-Kept :
      (id : ConnectionId) (c : PeerDocConnection am) (a : DocumentActor am)
      → P c
      → AllPeers P a
      → AllPeers P (store id c a)
  store-Kept id c a p h = insert-All P id c a.peer_connections p h

  dispatch-Kept :
      (now : UnixTimestamp) (id : ConnectionId) (c : PeerDocConnection am) (msg : SyncMessage)
      (phase : Phase) (turn : Turn am)
      → P c
      → AllPeers P turn.0
      → AllPeers P (dispatch now id c msg phase turn).1.0
  dispatch-Kept now id c msg (loading l) turn p h = h
  dispatch-Kept now id c msg (requesting request) turn p h =
      let (done, doc, c', request') = receive_message now turn.0.doc c msg request in
      store-Kept id c' turn.0 (receive_message-Kept kept.by_sync now turn.0.doc c msg request p) h
  dispatch-Kept now id c msg ready turn p h =
      let (done, doc, c') = receive_ready now turn.0.doc c msg in
      store-Kept id c' turn.0 (receive_ready-Kept kept.by_sync now turn.0.doc c msg p) h

  hold-Kept :
      (id : ConnectionId) (r : Bool × PeerDocConnection am) (turn : Turn am)
      → P r.1
      → AllPeers P turn.0
      → AllPeers P (hold_for_policy id r turn).0
  unfolding remove_connection
  hold-Kept id (true, c) turn p h = store-Kept id c turn.0 p h
  hold-Kept id (false, c) turn p h = remove-All P id turn.0.peer_connections h

  handle_under-Kept :
      (now : UnixTimestamp) (id : ConnectionId) (c : PeerDocConnection am) (msg : SyncMessage)
      (at : UnixTimestamp) (turn : Turn am) (config : Option ShareConfig)
      → share_config c ≡ config
      → P c
      → AllPeers P turn.0
      → AllPeers P (handle_under now id c msg at turn config).0
  handle_under-Kept now id c msg at turn none e p h =
      hold-Kept id (buffer_sync_message msg at c) turn (kept.buffered c msg at p e) h
  handle_under-Kept now id c msg at turn (some config) e p h =
      elim (Bool-cases (Share.can_read config)) [
        | inl reads ↦ rw reads (dispatch-Kept now id c msg turn.0.phase turn p h)
        | inr denied ↦ rw denied h
      ]

  requested_by-Kept : (msg : SyncMessage) (c : PeerDocConnection am) → P c → P (requested_by msg c)
  requested_by-Kept msg c p = elim (Bool-cases (is_data msg)) [
    | inl carries ↦ rw carries (kept.marked c p)
    | inr other ↦ rw other p
  ]

  pub handle_sync_message-Kept :
      (now : UnixTimestamp) (id : ConnectionId) (msg : SyncMessage) (at : UnixTimestamp)
      (turn : Turn am)
      → AllPeers P turn.0
      → AllPeers P (handle_sync_message now id msg at turn).0
  unfolding handle_sync_message
  handle_sync_message-Kept now id msg at turn h =
      elim (Option-cases (get id turn.0.peer_connections)) [
        | inl absent ↦ rw absent h
        | inr (c, found) ↦
            (let c' = requested_by msg c in
              let p = requested_by-Kept msg c (get-All P id turn.0.peer_connections c h found) in
              rw found (
                handle_under-Kept now id c' msg at (store id c' turn.0, turn.1) (share_config c')
                  refl p (store-Kept id c' turn.0 p h)))
      ]

  handle_pending-Kept :
      (now : UnixTimestamp) (id : ConnectionId) (pending : List (SyncMessage × UnixTimestamp))
      (turn : Turn am)
      → AllPeers P turn.0
      → AllPeers P (handle_pending now id pending turn).0
  handle_pending-Kept now id [] turn h = h
  handle_pending-Kept now id ((msg, at) ∷ pending) turn h =
      handle_pending-Kept now id pending (handle_sync_message now id msg at turn)
        (handle_sync_message-Kept now id msg at turn h)

  pub apply_share_policy-Kept :
      (now : UnixTimestamp) (id : ConnectionId) (config : ShareConfig) (turn : Turn am)
      → AllPeers P turn.0
      → AllPeers P (apply_share_policy now id config turn).0
  unfolding apply_share_policy
  apply_share_policy-Kept now id config turn h =
      elim (Option-cases (get id turn.0.peer_connections)) [
        | inl absent ↦ rw absent h
        | inr (c, found) ↦
            (let p = kept.decided c config (get-All P id turn.0.peer_connections c h found) in
              rw found (
                handle_pending-Kept now id (set_share_config config c).1.pending_sync_messages
                  (decide_on id config c turn.0, turn.1)
                  (store-Kept id (with_config config c) turn.0 p h)))
      ]

  pub apply_each-Kept :
      (now : UnixTimestamp) (config : ShareConfig) (ids : List ConnectionId) (turn : Turn am)
      → AllPeers P turn.0
      → AllPeers P (apply_each now config ids turn).0
  apply_each-Kept now config [] turn h = h
  apply_each-Kept now config (id ∷ ids) turn h =
      apply_each-Kept now config ids (apply_share_policy now id config turn)
        (apply_share_policy-Kept now id config turn h)

  handle_held_of-Kept :
      (now : UnixTimestamp) (id : ConnectionId) (msgs : List SyncMessage) (turn : Turn am)
      → AllPeers P turn.0
      → AllPeers P (handle_held_of now id msgs turn).0
  handle_held_of-Kept now id [] turn h = h
  handle_held_of-Kept now id (msg ∷ msgs) turn h =
      handle_held_of-Kept now id msgs (handle_sync_message now id msg now turn)
        (handle_sync_message-Kept now id msg now turn h)

  handle_held-Kept :
      (now : UnixTimestamp) (held : Map ConnectionId (List SyncMessage)) (turn : Turn am)
      → AllPeers P turn.0
      → AllPeers P (handle_held now held turn).0
  handle_held-Kept now [] turn h = h
  handle_held-Kept now ((id, msgs) ∷ held) turn h =
      handle_held-Kept now held (handle_held_of now id msgs turn)
        (handle_held_of-Kept now id msgs turn h)

  leave_loading-Kept :
      (now : UnixTimestamp) (phase : Phase) (turn : Turn am)
      → AllPeers P turn.0
      → AllPeers P (leave_loading now phase turn).0
  leave_loading-Kept now (loading l) (a, out) h =
      handle_held-Kept now l.pending_sync_messages (record a { phase = phase_after_load a }, out) h
  leave_loading-Kept now (requesting request) turn h = h
  leave_loading-Kept now ready turn h = h

  pub finish_load-Kept :
      (now : UnixTimestamp) (done : Option LoadComplete) (turn : Turn am)
      → AllPeers P turn.0
      → AllPeers P (finish_load now done turn).0
  unfolding handle_load
  finish_load-Kept now none turn h = h
  finish_load-Kept now (some done) (a, out) h =
      let a' : DocumentActor am = record a {
        doc = load_all am done.incrementals (load_all am done.snapshots a.doc);
      } in
      leave_loading-Kept now a'.phase (a', out) h

  pub after_io-Kept :
      (now : UnixTimestamp) (turn : Turn am) → AllPeers P turn.0 → AllPeers P (after_io now turn).0
  after_io-Kept now (a, out) h =
      let (done, load) = take_complete a.load_state in
      finish_load-Kept now done (record a { load_state = load }, out) h
