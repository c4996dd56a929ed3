-- ===== src/Wire/Cbor.antt =====
-- What the code uses of the libraries minicbor, bs58 and uuid, with the text of a document's
-- identifier: samod-core/src/document_id.rs.
use samod.Prelude.{ℕ, ◌<◌, ◌^◌, ◌≡◌, String, Bool, false, Option, none, some, List, ◌∷◌}
use samod.Prelude.Result.{Result, ok}
use samod.Network.{DocumentId, Bytes}

-- The calls of `minicbor::Encoder`.
pub data Call : Type 0 where
  map : ℕ → Call
  array : ℕ → Call
  str : String → Call
  bytes : Bytes → Call
  u64 : ℕ → Call
  bool : Bool → Call

-- `written` is what the writer of an encoder holds after these calls; such a writer does not fail.
-- A decoder is the rest of its input, and an error of it the text that it prints.
pub record Cbor : Type 1 where
  pub Buffer : Type 0
  pub written : List Call → Buffer
  pub map : Buffer → Result String (Option ℕ × Buffer)
  pub array : Buffer → Result String (Option ℕ × Buffer)
  pub str : Buffer → Result String (String × Buffer)
  pub bytes : Buffer → Result String (Bytes × Buffer)
  pub u64 : Buffer → Result String (ℕ × Buffer)
  -- `f64` and the cast of its result to a `u64`
  pub f64_as_u64 : Buffer → Result String (ℕ × Buffer)
  pub bool : Buffer → Result String (Bool × Buffer)
  -- whether `datatype` is `Type::Undefined`
  pub is_undefined : Buffer → Result String Bool
  pub undefined : Buffer → Result String Buffer
  pub skip : Buffer → Result String Buffer

-- A decoder reads what an encoder has written. Numbers and lengths are `u64`s.
pub record ReadsBack (c : Cbor) : Type 0 where
  pub map_lem :
      (n : ℕ) (rest : List Call)
      → n < 2 ^ 64
      → c.map (c.written (map n ∷ rest)) ≡ ok (some n, c.written rest)
  pub array_lem :
      (n : ℕ) (rest : List Call)
      → n < 2 ^ 64
      → c.array (c.written (array n ∷ rest)) ≡ ok (some n, c.written rest)
  pub str_lem :
      (s : String) (rest : List Call) → c.str (c.written (str s ∷ rest)) ≡ ok (s, c.written rest)
  pub bytes_lem :
      (b : Bytes) (rest : List Call) → c.bytes (c.written (bytes b ∷ rest)) ≡ ok (b, c.written rest)
  pub u64_lem :
      (n : ℕ) (rest : List Call)
      → n < 2 ^ 64
      → c.u64 (c.written (u64 n ∷ rest)) ≡ ok (n, c.written rest)
  pub bool_lem :
      (b : Bool) (rest : List Call) → c.bool (c.written (bool b ∷ rest)) ≡ ok (b, c.written rest)
  pub str_defined :
      (s : String) (rest : List Call) → c.is_undefined (c.written (str s ∷ rest)) ≡ ok false

-- `bs58` with its checksum, and the library's UUIDs.
pub record Ids : Type 0 where
  pub as_bytes : DocumentId → Bytes
  pub from_slice : Bytes → Option DocumentId
  pub parse_str : String → Option DocumentId
  pub bs58_encode : Bytes → String
  pub bs58_decode : String → Option Bytes

pub record IdsReadBack (ids : Ids) : Type 0 where
  pub from_slice_lem : (id : DocumentId) → ids.from_slice (ids.as_bytes id) ≡ some id
  pub bs58_lem : (b : Bytes) → ids.bs58_decode (ids.bs58_encode b) ≡ some b

module _ (ids : Ids) where
  -- `Display for DocumentId`
  abbrev pub text_of : DocumentId → String
  text_of id = ids.bs58_encode (ids.as_bytes id)

  -- `TryFrom<Vec<u8>> for DocumentId`, its error forgotten
  abbrev pub from_bytes : Bytes → Option DocumentId
  from_bytes b = ids.from_slice b

  -- `FromStr for DocumentId`, its error forgotten
  unfoldable pub from_str : String → Option DocumentId
  from_str s = elim (ids.bs58_decode s) [ some b ↦ from_bytes b | none ↦ ids.parse_str s ]

pub from_str-text_of :
    (ids : Ids) → IdsReadBack ids → (id : DocumentId) → from_str ids (text_of ids id) ≡ some id
unfolding from_str
from_str-text_of ids lib id = rw (lib.bs58_lem (ids.as_bytes id), from_str) (lib.from_slice_lem id)
