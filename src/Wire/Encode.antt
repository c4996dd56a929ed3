-- ===== src/Wire/Encode.antt =====
-- `WireMessage::encode` of samod-core/src/network/wire_protocol.rs, as the calls of the encoder.
use samod.Prelude.{ℕ, String, Bool, Option, none, some, List, [], ◌∷◌, ◌++◌}
use samod.Prelude.Lists.{length}
use samod.Prelude.Map.{Map}
use samod.Network.{StorageId, PeerMetadata}
use samod.Messages.{
  HeadsInfo, WireMessage, join, peer, leave, request, sync, doc_unavailable, ephemeral, error,
  remote_subscription_change, remote_heads_changed,
}
use samod.Wire.Cbor.{Call, map, array, str, bytes, u64, bool, Cbor, Ids, text_of}

-- The strings of an array, after its head.
abbrev pub strings : List String → List Call
strings [] = []
strings (s ∷ ss) = str s ∷ strings ss

abbrev pub string_array : List String → List Call
string_array ss = array (length ss) ∷ strings ss

-- `encode_metadata`
abbrev pub encode_metadata : Bool → Option StorageId → List Call
encode_metadata is_ephemeral none = map 1 ∷ str "isEphemeral" ∷ bool is_ephemeral ∷ []
encode_metadata is_ephemeral (some storage_id) =
    map 2 ∷ str "storageId" ∷ str storage_id ∷ str "isEphemeral" ∷ bool is_ephemeral ∷ []

abbrev pub metadata_field : Option PeerMetadata → List Call
metadata_field none = []
metadata_field (some m) = str "peerMetadata" ∷ encode_metadata m.is_ephemeral m.storage_id

abbrev pub encode_info : HeadsInfo → List Call
encode_info info =
    map 2 ∷ str "heads" ∷ (string_array info.heads ++ str "timestamp" ∷ u64 info.timestamp ∷ [])

abbrev pub encode_entries : Map StorageId HeadsInfo → List Call
encode_entries [] = []
encode_entries ((id, info) ∷ entries) = str id ∷ (encode_info info ++ encode_entries entries)

-- `encode_new_heads`
abbrev pub encode_new_heads : Map StorageId HeadsInfo → List Call
encode_new_heads new_heads = map (length new_heads) ∷ encode_entries new_heads

-- `field_count`, with one more for an optional field that is there.
abbrev pub count_with {ℓ} : {A : Type ℓ} → ℕ → ℕ → Option A → ℕ
count_with without with_it none = without
count_with without with_it (some a) = with_it

abbrev pub add_field : Option (List StorageId) → List Call
add_field none = []
add_field (some add) = str "add" ∷ string_array add

module _ (ids : Ids) where
  unfoldable pub encode_inner : WireMessage → List Call
  encode_inner (join sender_id versions metadata) =
      map (count_with 3 4 metadata)
      ∷ str "type"
      ∷ str "join"
      ∷ str "senderId"
      ∷ str sender_id
      ∷ str "supportedProtocolVersions"
      ∷ (string_array versions ++ metadata_field metadata)
  encode_inner (peer sender_id version target_id metadata) =
      map (count_with 4 5 metadata)
      ∷ str "type"
      ∷ str "peer"
      ∷ str "senderId"
      ∷ str sender_id
      ∷ str "selectedProtocolVersion"
      ∷ str version
      ∷ str "targetId"
      ∷ str target_id
      ∷ metadata_field metadata
  encode_inner (leave sender_id) =
      map 2 ∷ str "type" ∷ str "leave" ∷ str "senderId" ∷ str sender_id ∷ []
  encode_inner (request document_id sender_id target_id payload) =
      map 5
      ∷ str "type"
      ∷ str "request"
      ∷ str "documentId"
      ∷ str (text_of ids document_id)
      ∷ str "senderId"
      ∷ str sender_id
      ∷ str "targetId"
      ∷ str target_id
      ∷ str "data"
      ∷ bytes payload
      ∷ []
  encode_inner (sync document_id sender_id target_id payload) =
      map 5
      ∷ str "type"
      ∷ str "sync"
      ∷ str "documentId"
      ∷ str (text_of ids document_id)
      ∷ str "senderId"
      ∷ str sender_id
      ∷ str "targetId"
      ∷ str target_id
      ∷ str "data"
      ∷ bytes payload
      ∷ []
  encode_inner (doc_unavailable sender_id target_id document_id) =
      map 4
      ∷ str "type"
      ∷ str "doc-unavailable"
      ∷ str "senderId"
      ∷ str sender_id
      ∷ str "targetId"
      ∷ str target_id
      ∷ str "documentId"
      ∷ str (text_of ids document_id)
      ∷ []
  encode_inner (ephemeral sender_id target_id count session_id document_id payload) =
      map 7
      ∷ str "type"
      ∷ str "ephemeral"
      ∷ str "senderId"
      ∷ str sender_id
      ∷ str "targetId"
      ∷ str target_id
      ∷ str "count"
      ∷ u64 count
      ∷ str "sessionId"
      ∷ str session_id
      ∷ str "documentId"
      ∷ str (text_of ids document_id)
      ∷ str "data"
      ∷ bytes payload
      ∷ []
  encode_inner (error message) = map 2 ∷ str "type" ∷ str "error" ∷ str "message" ∷ str message ∷ []
  encode_inner (remote_subscription_change sender_id target_id add remove) =
      map (count_with 4 5 add)
      ∷ str "type"
      ∷ str "remote-subscription-change"
      ∷ str "senderId"
      ∷ str sender_id
      ∷ str "targetId"
      ∷ str target_id
      ∷ (add_field add ++ str "remove" ∷ string_array remove)
  encode_inner (remote_heads_changed sender_id target_id document_id new_heads) =
      map 5
      ∷ str "type"
      ∷ str "remote-heads-changed"
      ∷ str "senderId"
      ∷ str sender_id
      ∷ str "targetId"
      ∷ str target_id
      ∷ str "documentId"
      ∷ str (text_of ids document_id)
      ∷ str "newHeads"
      ∷ encode_new_heads new_heads

  abbrev pub encode : (c : Cbor) → WireMessage → c.Buffer
  encode c msg = c.written (encode_inner msg)
