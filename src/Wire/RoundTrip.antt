-- ===== src/Wire/RoundTrip.antt =====
-- What is encoded is decoded again: samod-core/src/network/wire_protocol.rs.
use samod.Prelude.{
  ℕ, ◌<◌, ◌^◌, ◌≡◌, refl, ap, ◌∙◌, subst, String, Bool, Option, none, some, List, [], ◌∷◌, ◌++◌,
  string_eq, arith,
}
use samod.Prelude.Lists.{length, All, append_assoc, append_nil}
use samod.Prelude.Map.{Map, get, insert, values, Distinct, insert_all, insert_all_lem}
use samod.Prelude.Result.{ok, ◌>>=◌}
use samod.Network.{StorageId, PeerMetadata}
use samod.Messages.{
  HeadsInfo, WireMessage, join, peer, leave, request, sync, doc_unavailable, ephemeral, error,
  remote_subscription_change, remote_heads_changed,
}
use samod.Wire.Cbor.{Call, map, str, u64, bool, Cbor, ReadsBack, Ids, IdsReadBack, from_str-text_of}
use samod.Wire.Encode.{
  encode_inner, encode, strings, string_array, encode_metadata, encode_info, encode_new_heads,
  encode_entries,
}
use samod.Wire.Decode.{
  read_strings, read_array, read_fields, decode, build, build_as, decode_metadata, metadata_entries,
  decode_info, info_entries, decode_new_heads, heads_entries, decode_u64_or_f64,
}

-- What fits a `u64` in what the source holds in 64 bits, and a map with each key once.
abbrev pub InfoFits : HeadsInfo → Type 0
InfoFits info = (length info.heads < 2 ^ 64) × (info.timestamp < 2 ^ 64)

abbrev pub HeadsFit : Map StorageId HeadsInfo → Type 0
HeadsFit heads = (length heads < 2 ^ 64) × All InfoFits (values heads) × Distinct heads

abbrev AddFits : Option (List StorageId) → Type 0
AddFits none = Unit
AddFits (some add) = length add < 2 ^ 64

abbrev pub Fits : WireMessage → Type 0
Fits (join sender_id versions metadata) = length versions < 2 ^ 64
Fits (ephemeral sender_id target_id count session_id document_id payload) = count < 2 ^ 64
Fits (remote_subscription_change sender_id target_id add remove) =
    AddFits add × (length remove < 2 ^ 64)
Fits (remote_heads_changed sender_id target_id document_id heads) = HeadsFit heads
Fits _ = Unit

module _ (c : Cbor) (lib : ReadsBack c) where
  read_strings_lem :
      (ss : List String) (rest : List Call)
      → read_strings c (length ss) (c.written (strings ss ++ rest)) ≡ ok (ss, c.written rest)
  unfolding read_strings
  read_strings_lem [] rest = refl
  read_strings_lem (s ∷ ss) rest =
      rw (lib.str_lem s (strings ss ++ rest), read_strings_lem ss rest) refl

  read_array_lem :
      (ss : List String)
      → length ss < 2 ^ 64
      → (rest : List Call)
      → read_array c (c.written (string_array ss ++ rest)) ≡ ok (ss, c.written rest)
  unfolding read_array
  read_array_lem ss h rest =
      rw (lib.array_lem (length ss) (strings ss ++ rest) h) (read_strings_lem ss rest)

  decode_metadata_lem :
      (is_ephemeral : Bool) (storage_id : Option StorageId) (rest : List Call)
      → decode_metadata c (c.written (encode_metadata is_ephemeral storage_id ++ rest))
        ≡ ok (record { is_ephemeral = is_ephemeral; storage_id = storage_id }, c.written rest)
  unfolding decode_metadata metadata_entries
  decode_metadata_lem is_ephemeral none rest =
      rw (lib.map_lem 1 (str "isEphemeral" ∷ bool is_ephemeral ∷ rest) (omega arith))
        (simp (lib.str_lem, lib.bool_lem))
  decode_metadata_lem is_ephemeral (some s) rest =
      rw
        (lib.map_lem 2 (str "storageId" ∷ str s ∷ str "isEphemeral" ∷ bool is_ephemeral ∷ rest)
          (omega arith))
        (simp (lib.str_lem, lib.bool_lem, lib.str_defined))

  -- A count or a timestamp that an encoder has written.
  decode_number_lem :
      (n : ℕ)
      → n < 2 ^ 64
      → (rest : List Call) → decode_u64_or_f64 c (c.written (u64 n ∷ rest)) ≡ ok (n, c.written rest)
  unfolding decode_u64_or_f64
  decode_number_lem n h rest = rw (lib.u64_lem n rest h) refl

  decode_info_lem :
      (info : HeadsInfo)
      → InfoFits info
      → (rest : List Call)
      → decode_info c (c.written (encode_info info ++ rest)) ≡ ok (info, c.written rest)
  unfolding decode_info info_entries
  decode_info_lem info fits rest =
      let after : List Call = str "timestamp" ∷ u64 info.timestamp ∷ [] in
      rw
        (
          append_assoc (strings info.heads) after rest,
          lib.map_lem 2 (str "heads" ∷ (string_array info.heads ++ (after ++ rest))) (omega arith),
        )
        (simp
          (lib.str_lem, read_array_lem info.heads fits.0, decode_number_lem info.timestamp fits.1))

  heads_entries_lem :
      (entries found : Map StorageId HeadsInfo)
      → All InfoFits (values entries)
      → heads_entries c (length entries) found (c.written (encode_entries entries))
        ≡ ok (insert_all entries found, c.written [])
  unfolding heads_entries
  heads_entries_lem [] found h = refl
  heads_entries_lem ((id, info) ∷ entries) found h =
      simp (lib.str_lem, decode_info_lem info h.0)
        (heads_entries_lem entries (insert id info found) h.1)

  decode_new_heads_lem :
      (heads : Map StorageId HeadsInfo)
      → HeadsFit heads
      → decode_new_heads c (c.written (encode_new_heads heads)) ≡ ok (heads, c.written [])
  unfolding decode_new_heads
  decode_new_heads_lem heads (short, fit, distinct) =
      rw (lib.map_lem (length heads) (encode_entries heads) short) (
        heads_entries_lem heads [] fit
        ∙ ap (λ m. ok (m, c.written [])) (insert_all_lem heads distinct))

  -- At the end of a message.
  read_array_end :
      (ss : List String)
      → length ss < 2 ^ 64
      → read_array c (c.written (string_array ss)) ≡ ok (ss, c.written [])
  read_array_end ss h =
      subst (λ calls. read_array c (c.written calls) ≡ ok (ss, c.written []))
        (append_nil (string_array ss)) (read_array_lem ss h [])

  decode_metadata_end :
      (m : PeerMetadata)
      → decode_metadata c (c.written (encode_metadata m.is_ephemeral m.storage_id))
        ≡ ok (m, c.written [])
  decode_metadata_end m =
      subst (λ calls. decode_metadata c (c.written calls) ≡ ok (m, c.written []))
        (append_nil (encode_metadata m.is_ephemeral m.storage_id))
        (decode_metadata_lem m.is_ephemeral m.storage_id [])

  -- Decoding a map of `n` fields, once they have been read.
  decode_lem :
      (ids : Ids) (n : ℕ) (rest : List Call)
      → n < 2 ^ 64
      → decode ids c (c.written (map n ∷ rest))
        ≡ (read_fields c n [] (c.written rest) >>= build ids)
  unfolding decode
  decode_lem ids n rest h = rw (lib.map_lem n rest h) refl

  module _ (ids : Ids) (ids_lib : IdsReadBack ids) where
    -- What `encode` gives for a message, `decode` takes back to the message, if its numbers and lengths
    -- fit a `u64` and the keys of its map of heads differ, and the libraries read back what they write.
    pub decode-encode : (msg : WireMessage) → Fits msg → decode ids c (encode ids c msg) ≡ ok msg
    unfolding encode_inner read_fields build build_as get insert
    decode-encode (join s versions none) h =
        decode_lem ids 3 _ (omega arith) ∙ simp (lib.str_lem, read_array_lem versions h)
    decode-encode (join s versions (some m)) h =
        decode_lem ids 4 _ (omega arith)
        ∙ simp (lib.str_lem, read_array_lem versions h, decode_metadata_end m)
    decode-encode (peer s version t none) h = decode_lem ids 4 _ (omega arith) ∙ simp (lib.str_lem)
    decode-encode (peer s version t (some m)) h =
        decode_lem ids 5 _ (omega arith) ∙ simp (lib.str_lem, decode_metadata_end m)
    decode-encode (leave s) h = decode_lem ids 2 _ (omega arith) ∙ simp (lib.str_lem)
    decode-encode (request d s t b) h =
        decode_lem ids 5 _ (omega arith)
        ∙ simp (lib.str_lem, lib.bytes_lem) (simp (from_str-text_of ids ids_lib))
    decode-encode (sync d s t b) h =
        decode_lem ids 5 _ (omega arith)
        ∙ simp (lib.str_lem, lib.bytes_lem) (simp (from_str-text_of ids ids_lib))
    decode-encode (doc_unavailable s t d) h =
        decode_lem ids 4 _ (omega arith) ∙ simp (lib.str_lem) (simp (from_str-text_of ids ids_lib))
    decode-encode (ephemeral s t count session d b) h =
        decode_lem ids 7 _ (omega arith)
        ∙ simp (lib.str_lem, lib.bytes_lem, decode_number_lem count h)
            (simp (from_str-text_of ids ids_lib))
    decode-encode (error message) h = decode_lem ids 2 _ (omega arith) ∙ simp (lib.str_lem)
    decode-encode (remote_subscription_change s t none remove) h =
        decode_lem ids 4 _ (omega arith)
        ∙ simp (
          lib.str_lem,
          λ (rest : List Call). lib.array_lem (length remove) rest h.1,
          read_array_end remove h.1,
        )
    decode-encode (remote_subscription_change s t (some add) remove) h =
        decode_lem ids 5 _ (omega arith)
        ∙ simp (
          lib.str_lem,
          λ (rest : List Call). lib.array_lem (length add) rest h.0,
          λ (rest : List Call). lib.array_lem (length remove) rest h.1,
          read_array_lem add h.0,
          read_array_end remove h.1,
        )
    decode-encode (remote_heads_changed s t d heads) h =
        decode_lem ids 5 _ (omega arith)
        ∙ simp (lib.str_lem, decode_new_heads_lem heads h) (simp (from_str-text_of ids ids_lib))
