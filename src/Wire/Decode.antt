-- ===== src/Wire/Decode.antt =====
-- `WireMessage::decode` of samod-core/src/network/wire_protocol.rs.
use samod.Prelude.{
  ℕ, zero, suc, String, Bool, true, false, ◌||◌, Option, none, some, List, [], ◌∷◌, ◌++◌, ◌==◌,
  string_eq, if◌then◌else◌,
}
use samod.Prelude.Map.{Map, get, insert}
use samod.Prelude.Result.{Result, ok, err, ◌>>=◌}
use samod.Network.{DocumentId, PeerId, StorageId, PeerMetadata, Bytes}
use samod.Messages.{
  HeadsInfo, WireMessage, join, peer, leave, request, sync, doc_unavailable, ephemeral, error,
  remote_subscription_change, remote_heads_changed,
}
use samod.Wire.Cbor.{Cbor, Ids, from_str, from_bytes}

pub data DecodeError : Type 0 where
  missing_len : DecodeError
  invalid_format : DecodeError
  minicbor : String → DecodeError
  missing_type : DecodeError
  missing_field : String → DecodeError
  invalid_document_id : DecodeError
  unknown_type : String → DecodeError

pub data FieldValue : Type 0 where
  string : String → FieldValue
  string_array : List String → FieldValue
  blob : Bytes → FieldValue
  uint : ℕ → FieldValue
  metadata : PeerMetadata → FieldValue
  new_heads : Map StorageId HeadsInfo → FieldValue

abbrev pub Fields : Type 0
Fields = Map String FieldValue

abbrev pub Decoded {ℓ} : Type ℓ → Type ℓ
Decoded A = Result DecodeError A

-- `From<minicbor::decode::Error>`, at a `?`.
abbrev pub lift {ℓ} : {A : Type ℓ} → Result String A → Decoded A
lift (ok a) = ok a
lift (err e) = err (minicbor e)

abbrev pub ok_or {ℓ} : {A : Type ℓ} → DecodeError → Option A → Decoded A
ok_or e none = err e
ok_or e (some a) = ok a

abbrev is_ok {ℓ} : {A : Type ℓ} → Result String A → Bool
is_ok (ok a) = true
is_ok (err e) = false

-- The arms of the match on a field's key.
pub data FieldKind : Type 0 where
  a_string a_document some_strings maybe_strings a_blob a_number some_metadata some_heads unknown :
      FieldKind

abbrev is_text : String → Bool
is_text key =
    key == "type"
    || key == "senderId"
    || key == "targetId"
    || key == "selectedProtocolVersion"
    || key == "message"
    || key == "sessionId"

abbrev pub kind_of : String → FieldKind
kind_of key =
    if is_text key
    then a_string
    else if key == "documentId"
    then a_document
    else if key == "supportedProtocolVersions"
    then some_strings
    else if key == "add" || key == "remove"
    then maybe_strings
    else if key == "data"
    then a_blob
    else if key == "count" || key == "timestamp"
    then a_number
    else if key == "peerMetadata" || key == "metadata"
    then some_metadata
    else if key == "newHeads"
    then some_heads
    else unknown

module _ (c : Cbor) where
  -- What reads something and leaves the decoder behind it.
  abbrev pub Read {ℓ} : Type ℓ → Type ℓ
  Read A = Decoded (A × c.Buffer)

  unfoldable pub read_strings : ℕ → c.Buffer → Read (List String)
  read_strings zero b = ok ([], b)
  read_strings (suc n) b = do
    (s, b1) ← lift (c.str b)
    (ss, b2) ← read_strings n b1
    ok (s ∷ ss, b2)

  unfoldable pub read_array : c.Buffer → Read (List String)
  read_array b = do (len, b1) ← lift (c.array b); n ← ok_or invalid_format len; read_strings n b1

  unfoldable pub decode_u64_or_f64 : c.Buffer → Read ℕ
  decode_u64_or_f64 b = if is_ok (c.u64 b) then lift (c.u64 b) else lift (c.f64_as_u64 b)

  abbrev skip : c.Buffer → Decoded c.Buffer
  skip b = lift (c.skip b)

  -- `storageId`, which may be undefined.
  abbrev read_storage_id : Bool → PeerMetadata → c.Buffer → Read PeerMetadata
  read_storage_id true m b = do b1 ← lift (c.undefined b); ok (m, b1)
  read_storage_id false m b = do (s, b1) ← lift (c.str b); ok (record m { storage_id = some s }, b1)

  abbrev metadata_entry : String → PeerMetadata → c.Buffer → Read PeerMetadata
  metadata_entry key m b =
      if key == "storageId"
      then (do undefined ← lift (c.is_undefined b); read_storage_id undefined m b)
      else if key == "isEphemeral"
      then (do (value, b1) ← lift (c.bool b); ok (record m { is_ephemeral = value }, b1))
      else (do b1 ← skip b; ok (m, b1))

  unfoldable pub metadata_entries : ℕ → PeerMetadata → c.Buffer → Read PeerMetadata
  metadata_entries zero m b = ok (m, b)
  metadata_entries (suc n) m b = do
    (key, b1) ← lift (c.str b)
    (m1, b2) ← metadata_entry key m b1
    metadata_entries n m1 b2

  unfoldable pub decode_metadata : c.Buffer → Read PeerMetadata
  decode_metadata b = do
    (len, b1) ← lift (c.map b)
    n ← ok_or invalid_format len
    metadata_entries n (record { is_ephemeral = false; storage_id = none }) b1

  abbrev info_entry : String → HeadsInfo → c.Buffer → Read HeadsInfo
  info_entry key info b =
      if key == "heads"
      then (do (heads, b1) ← read_array b; ok (record info { heads = info.heads ++ heads }, b1))
      else if key == "timestamp"
      then (do
        (timestamp, b1) ← decode_u64_or_f64 b
        ok (record info { timestamp = timestamp }, b1))
      else (do b1 ← skip b; ok (info, b1))

  unfoldable pub info_entries : ℕ → HeadsInfo → c.Buffer → Read HeadsInfo
  info_entries zero info b = ok (info, b)
  info_entries (suc n) info b = do
    (key, b1) ← lift (c.str b)
    (info1, b2) ← info_entry key info b1
    info_entries n info1 b2

  unfoldable pub decode_info : c.Buffer → Read HeadsInfo
  decode_info b = do
    (len, b1) ← lift (c.map b)
    n ← ok_or invalid_format len
    info_entries n (record { heads = []; timestamp = 0 }) b1

  unfoldable pub heads_entries :
      ℕ → Map StorageId HeadsInfo → c.Buffer → Read (Map StorageId HeadsInfo)
  heads_entries zero found b = ok (found, b)
  heads_entries (suc n) found b = do
    (storage_id, b1) ← lift (c.str b)
    (info, b2) ← decode_info b1
    heads_entries n (insert storage_id info found) b2

  unfoldable pub decode_new_heads : c.Buffer → Read (Map StorageId HeadsInfo)
  decode_new_heads b = do
    (len, b1) ← lift (c.map b)
    n ← ok_or invalid_format len
    heads_entries n [] b1

  abbrev store_field : {A : Type 0} → String → (A → FieldValue) → Fields → Read A → Read Fields
  store_field key value fields read = do (a, b) ← read; ok (insert key (value a) fields, b)

  abbrev ignore : Fields → c.Buffer → Read Fields
  ignore fields b = do b1 ← skip b; ok (fields, b1)

  abbrev pub read_as : FieldKind → String → Fields → c.Buffer → Read Fields
  read_as a_string key fields b = store_field key string fields (lift (c.str b))
  read_as a_document key fields b =
      if is_ok (c.str b)
      then store_field key string fields (lift (c.str b))
      else store_field key blob fields (lift (c.bytes b))
  read_as some_strings key fields b = store_field key string_array fields (read_array b)
  read_as maybe_strings key fields b =
      if is_ok (c.array b)
      then store_field key string_array fields (read_array b)
      else ignore fields b
  read_as a_blob key fields b = store_field key blob fields (lift (c.bytes b))
  read_as a_number key fields b = store_field key uint fields (decode_u64_or_f64 b)
  read_as some_metadata key fields b =
      store_field "peerMetadata" metadata fields (decode_metadata b)
  read_as some_heads key fields b = store_field key new_heads fields (decode_new_heads b)
  read_as unknown key fields b = ignore fields b

  unfoldable pub read_fields : ℕ → Fields → c.Buffer → Decoded Fields
  read_fields zero fields b = ok fields
  read_fields (suc n) fields b = do
    (key, b1) ← lift (c.str b)
    (fields1, b2) ← read_as (kind_of key) key fields b1
    read_fields n fields1 b2

-- The methods `as_string` and so on, and the lookups that they end.
abbrev as_string : FieldValue → Option String
as_string value = elim value [ string s ↦ some s | _ ↦ none ]

abbrev as_string_array : FieldValue → Option (List String)
as_string_array value = elim value [ string_array ss ↦ some ss | _ ↦ none ]

abbrev as_bytes : FieldValue → Option Bytes
as_bytes value = elim value [ blob b ↦ some b | _ ↦ none ]

abbrev as_uint : FieldValue → Option ℕ
as_uint value = elim value [ uint n ↦ some n | _ ↦ none ]

abbrev as_metadata : FieldValue → Option PeerMetadata
as_metadata value = elim value [ metadata m ↦ some m | _ ↦ none ]

abbrev as_new_heads : FieldValue → Option (Map StorageId HeadsInfo)
as_new_heads value = elim value [ new_heads h ↦ some h | _ ↦ none ]

abbrev pub find : {A : Type 0} → (FieldValue → Option A) → String → Fields → Option A
find as_value key fields = elim (get key fields) [ none ↦ none | some value ↦ as_value value ]

abbrev required : {A : Type 0} → (FieldValue → Option A) → String → Fields → Decoded A
required as_value key fields = ok_or (missing_field key) (find as_value key fields)

abbrev pub get_peer_id : Fields → String → Decoded PeerId
get_peer_id fields key = required as_string key fields

abbrev or_empty : Option (List String) → List String
or_empty none = []
or_empty (some ss) = ss

module _ (ids : Ids) where
  abbrev document_of : FieldValue → Decoded DocumentId
  document_of (string s) = ok_or invalid_document_id (from_str ids s)
  document_of (blob b) = ok_or invalid_document_id (from_bytes ids b)
  document_of _ = err invalid_document_id

  abbrev pub get_document_id : Fields → String → Decoded DocumentId
  get_document_id fields key = do
    value ← ok_or (missing_field key) (get key fields)
    document_of value

  abbrev build_join : Fields → Decoded WireMessage
  build_join fields = do
    sender_id ← get_peer_id fields "senderId"
    versions ← required as_string_array "supportedProtocolVersions" fields
    ok (join sender_id versions (find as_metadata "peerMetadata" fields))

  abbrev build_peer : Fields → Decoded WireMessage
  build_peer fields = do
    sender_id ← get_peer_id fields "senderId"
    target_id ← get_peer_id fields "targetId"
    version ← required as_string "selectedProtocolVersion" fields
    ok (peer sender_id version target_id (find as_metadata "peerMetadata" fields))

  abbrev build_leave : Fields → Decoded WireMessage
  build_leave fields = do sender_id ← get_peer_id fields "senderId"; ok (leave sender_id)

  abbrev build_request : Fields → Decoded WireMessage
  build_request fields = do
    document_id ← get_document_id fields "documentId"
    sender_id ← get_peer_id fields "senderId"
    target_id ← get_peer_id fields "targetId"
    payload ← required as_bytes "data" fields
    ok (request document_id sender_id target_id payload)

  abbrev build_sync : Fields → Decoded WireMessage
  build_sync fields = do
    document_id ← get_document_id fields "documentId"
    sender_id ← get_peer_id fields "senderId"
    target_id ← get_peer_id fields "targetId"
    payload ← required as_bytes "data" fields
    ok (sync document_id sender_id target_id payload)

  abbrev build_doc_unavailable : Fields → Decoded WireMessage
  build_doc_unavailable fields = do
    sender_id ← get_peer_id fields "senderId"
    target_id ← get_peer_id fields "targetId"
    document_id ← get_document_id fields "documentId"
    ok (doc_unavailable sender_id target_id document_id)

  abbrev build_ephemeral : Fields → Decoded WireMessage
  build_ephemeral fields = do
    sender_id ← get_peer_id fields "senderId"
    target_id ← get_peer_id fields "targetId"
    count ← required as_uint "count" fields
    session_id ← required as_string "sessionId" fields
    document_id ← get_document_id fields "documentId"
    payload ← required as_bytes "data" fields
    ok (ephemeral sender_id target_id count session_id document_id payload)

  abbrev build_error : Fields → Decoded WireMessage
  build_error fields = do message ← required as_string "message" fields; ok (error message)

  abbrev build_subscription_change : Fields → Decoded WireMessage
  build_subscription_change fields = do
    sender_id ← get_peer_id fields "senderId"
    target_id ← get_peer_id fields "targetId"
    let add = find as_string_array "add" fields
    let remove = or_empty (find as_string_array "remove" fields)
    ok (remote_subscription_change sender_id target_id add remove)

  abbrev build_heads_changed : Fields → Decoded WireMessage
  build_heads_changed fields = do
    sender_id ← get_peer_id fields "senderId"
    target_id ← get_peer_id fields "targetId"
    document_id ← get_document_id fields "documentId"
    heads ← required as_new_heads "newHeads" fields
    ok (remote_heads_changed sender_id target_id document_id heads)

  unfoldable pub build_as : String → Fields → Decoded WireMessage
  build_as message_type fields =
      if message_type == "join"
      then build_join fields
      else if message_type == "peer"
      then build_peer fields
      else if message_type == "leave"
      then build_leave fields
      else if message_type == "request"
      then build_request fields
      else if message_type == "sync"
      then build_sync fields
      else if message_type == "doc-unavailable"
      then build_doc_unavailable fields
      else if message_type == "ephemeral"
      then build_ephemeral fields
      else if message_type == "error"
      then build_error fields
      else if message_type == "remote-subscription-change"
      then build_subscription_change fields
      else if message_type == "remote-heads-changed"
      then build_heads_changed fields
      else err (unknown_type message_type)

  unfoldable pub build : Fields → Decoded WireMessage
  build fields = do
    message_type ← ok_or missing_type (find as_string "type" fields)
    build_as message_type fields

  unfoldable pub decode : (c : Cbor) → c.Buffer → Decoded WireMessage
  decode c b = do
    (len, b1) ← lift (c.map b)
    n ← ok_or missing_len len
    fields ← read_fields c n [] b1
    build fields
