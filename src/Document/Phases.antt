-- ===== src/Document/Phases.antt =====
-- A document that is loading or there: samod-core/src/actors/document/phase/loading.rs and ready.rs.
use samod.Prelude.{
  ℕ, ◌+◌, Bool, false, Option, none, some, List, [], ◌∷◌, ◌++◌, nat_eq, if◌then◌else◌,
}
use samod.Prelude.Lists.{length}
use samod.Prelude.Map.{Map, get, insert}
use samod.Network.{ConnectionId, UnixTimestamp}
use samod.Messages.{SyncMessage}
use samod.Document.Library.{Automerge}
use samod.Document.Peer.{PeerDocConnection, can_send, receive_sync_message}
use samod.Document.Request.Messages.{generate_sync}

pub record Loading : Type 0 where
  pub pending_sync_messages : Map ConnectionId (List SyncMessage)

-- `Loading::new`
abbrev pub nothing_pending : Loading
nothing_pending = record { pending_sync_messages = [] }

abbrev count_all : Map ConnectionId (List SyncMessage) → ℕ
count_all [] = 0
count_all ((id, msgs) ∷ pending) = length msgs + count_all pending

abbrev pub pending_msg_count : Loading → ℕ
pending_msg_count l = count_all l.pending_sync_messages

abbrev or_none : Option (List SyncMessage) → List SyncMessage
or_none none = []
or_none (some msgs) = msgs

abbrev pub hold_back : ConnectionId → SyncMessage → Loading → Loading
hold_back conn_id msg l = record {
  pending_sync_messages =
      insert conn_id (or_none (get conn_id l.pending_sync_messages) ++ msg ∷ [])
        l.pending_sync_messages;
}

module _ {am : Automerge} where
  abbrev receive_decoded :
      UnixTimestamp
      → am.Doc
      → PeerDocConnection am
      → Option am.Message
      → Bool × am.Doc × PeerDocConnection am
  receive_decoded now doc c none = (false, doc, c)
  receive_decoded now doc c (some msg) = receive_sync_message now doc c msg

  -- `Ready::receive_sync_message`: whether the message was applied.
  unfoldable pub receive_ready :
      UnixTimestamp
      → am.Doc
      → PeerDocConnection am
      → SyncMessage
      → Bool × am.Doc × PeerDocConnection am
  receive_ready now doc c (SyncMessage.request bytes) = receive_decoded now doc c (am.decode bytes)
  receive_ready now doc c (SyncMessage.sync bytes) = receive_decoded now doc c (am.decode bytes)
  receive_ready now doc c SyncMessage.doc_unavailable = (false, doc, c)

  -- `Ready::generate_sync_messages`
  unfoldable pub generate_ready :
      UnixTimestamp → am.Doc → PeerDocConnection am → List SyncMessage × PeerDocConnection am
  generate_ready now doc c =
      let generated = generate_sync now doc c in if can_send c then generated else ([], c)
