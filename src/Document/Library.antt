-- ===== src/Document/Library.antt =====
-- What the document actor uses of code outside the repository: the document and the sync protocol
-- of the automerge crate, and the texts of identifiers and hashes (bs58, hex, sha2).
-- `automerge::sync::State` and `Automerge` are changed in place there; here an operation gives back
-- what it has changed.
use samod.Prelude.{String, Bool, Option, List}
use samod.Network.{Bytes, ChangeHash, DocumentId}

pub record Automerge : Type 1 where
  pub Doc : Type 0
  pub Change : Type 0
  pub SyncState : Type 0
  pub Message : Type 0
  pub new_doc : Doc
  pub get_heads : Doc → List ChangeHash
  pub get_changes : Doc → List ChangeHash → List Change
  -- `get_change_by_hash(hash).is_some()`
  pub has_change : Doc → ChangeHash → Bool
  pub save : Doc → Bytes
  -- `load_incremental`, which on an error leaves some document and is only reported
  pub load_incremental : Bytes → Doc → Doc
  -- the text of `Change::hash`, and its `raw_bytes`
  pub change_text : Change → String
  pub raw_bytes : Change → Bytes
  -- `sync::State::new`, `new_read_only`
  pub new_state : SyncState
  pub new_read_only : SyncState
  pub set_read_only : Bool → SyncState → SyncState
  pub set_last_sent_heads : List ChangeHash → SyncState → SyncState
  pub shared_heads : SyncState → List ChangeHash
  pub state_their_heads : SyncState → Option (List ChangeHash)
  pub is_peer_read_only : SyncState → Bool
  -- The Boolean says that it was `Ok`.
  pub receive : Message → Doc → SyncState → Bool × Doc × SyncState
  pub generate : Doc → SyncState → Option Message × SyncState
  pub message_heads : Message → List ChangeHash
  -- `sync::Message::decode` and `encode`
  pub decode : Bytes → Option Message
  pub encode : Message → Bytes
  pub document_text : DocumentId → String
  -- the text of `CompactionHash::new`, a SHA-256 over the heads
  pub compaction_text : List ChangeHash → String
