-- ===== src/Wire/Tests.antt =====
-- The encoding on concrete messages, with a buffer that is the list of the encoder's calls.
use Prim.Native.String.{[] as empty, ◌∷◌ as cons}
use samod.Prelude.{
  ℕ, zero, suc, ◌+◌, ◌≡◌, refl, ap, String, Bool, true, false, Option, none, some, List, [], ◌∷◌,
  arith, string_eq, ◌==◌,
}
use samod.Prelude.Map.{get, insert}
use samod.Prelude.Result.{Result, ok, err}
use samod.Network.{DocumentId, Bytes}
use samod.Messages.{WireMessage, remote_heads_changed, remote_subscription_change, HeadsInfo}
use samod.Wire.Cbor.{
  Call, map, array, str, bytes, u64, bool, Cbor, ReadsBack, Ids, IdsReadBack, text_of, from_str,
}
use samod.Wire.Encode.{encode}
use samod.Wire.Decode.{missing_field, decode, read_fields, build, build_as}
use samod.Wire.RoundTrip.{Fits, decode-encode}

abbrev take_map : List Call → Result String (Option ℕ × List Call)
take_map (map n ∷ rest) = ok (some n, rest)
take_map _ = err "not a map"

abbrev take_array : List Call → Result String (Option ℕ × List Call)
take_array (array n ∷ rest) = ok (some n, rest)
take_array _ = err "not an array"

abbrev take_str : List Call → Result String (String × List Call)
take_str (str s ∷ rest) = ok (s, rest)
take_str _ = err "not a text"

abbrev take_bytes : List Call → Result String (Bytes × List Call)
take_bytes (bytes b ∷ rest) = ok (b, rest)
take_bytes _ = err "not bytes"

abbrev take_u64 : List Call → Result String (ℕ × List Call)
take_u64 (u64 n ∷ rest) = ok (n, rest)
take_u64 _ = err "not a number"

abbrev take_bool : List Call → Result String (Bool × List Call)
take_bool (bool b ∷ rest) = ok (b, rest)
take_bool _ = err "not a truth value"

abbrev take_any : List Call → Result String (List Call)
take_any [] = err "nothing left"
take_any (call ∷ rest) = ok rest

abbrev calls : Cbor
calls = record {
  Buffer = List Call;
  written = λ cs. cs;
  map = take_map;
  array = take_array;
  str = take_str;
  bytes = take_bytes;
  u64 = take_u64;
  f64_as_u64 = λ cs. err "not a float";
  bool = take_bool;
  is_undefined = λ cs. ok false;
  undefined = take_any;
  skip = take_any;
}

calls-ReadsBack : ReadsBack calls
calls-ReadsBack = record {
  map_lem = λ n rest h. refl;
  array_lem = λ n rest h. refl;
  str_lem = λ s rest. refl;
  bytes_lem = λ b rest. refl;
  u64_lem = λ n rest h. refl;
  bool_lem = λ b rest. refl;
  str_defined = λ s rest. refl;
}

-- Each number as so many "1" and a ".".
abbrev digits : ℕ → String → String
digits zero rest = cons "." rest
digits (suc n) rest = cons "1" (digits n rest)

abbrev spell : Bytes → String
spell [] = ""
spell (b ∷ bs) = digits b (spell bs)

abbrev read_digits : ℕ → String → Bytes
read_digits n empty = []
read_digits n (cons ch s) = elim (cons ch "" == ".") [
  | true ↦ n ∷ read_digits 0 s
  | false ↦ read_digits (n + 1) s
]

read_digits-digits :
    (n b : ℕ) (rest : String) → read_digits n (digits b rest) ≡ (n + b) ∷ read_digits 0 rest
read_digits-digits n zero rest = ap (λ m. m ∷ read_digits 0 rest) (omega arith)
read_digits-digits n (suc b) rest = ground (arith, read_digits-digits (n + 1) b rest)

read_digits-spell : (b : Bytes) → read_digits 0 (spell b) ≡ b
read_digits-spell [] = refl
read_digits-spell (b ∷ bs) = ground (arith, read_digits-digits 0 b (spell bs), read_digits-spell bs)

abbrev first_of : Bytes → Option DocumentId
first_of (b ∷ []) = some b
first_of _ = none

abbrev spelled : Ids
spelled = record {
  as_bytes = λ id. id ∷ [];
  from_slice = first_of;
  parse_str = λ s. none;
  bs58_encode = spell;
  bs58_decode = λ s. some (read_digits 0 s);
}

spelled-IdsReadBack : IdsReadBack spelled
spelled-IdsReadBack = record {
  from_slice_lem = λ id. refl;
  bs58_lem = λ b. ap some (read_digits-spell b);
}

abbrev info : HeadsInfo
info = record { heads = "abc" ∷ "def" ∷ []; timestamp = 1700000000000 }

abbrev heads_changed : WireMessage
heads_changed = remote_heads_changed "alice" "bob" 5 (("store", info) ∷ ("other", info) ∷ [])

heads_changed-Fits : Fits heads_changed
heads_changed-Fits = (
  omega arith,
  ((omega arith, omega arith), ((omega arith, omega arith), tt)),
  (refl, (refl, tt)),
)

decode-encode_example : decode spelled calls (encode spelled calls heads_changed) ≡ ok heads_changed
decode-encode_example =
    decode-encode calls calls-ReadsBack spelled spelled-IdsReadBack heads_changed heads_changed-Fits

-- A change of subscriptions without its list of removals, and with a field that is not known.
abbrev js_subscribe : List Call
js_subscribe =
    map 5
    ∷ str "type"
    ∷ str "remote-subscription-change"
    ∷ str "senderId"
    ∷ str "js"
    ∷ str "later"
    ∷ bool true
    ∷ str "targetId"
    ∷ str "bob"
    ∷ str "remove"
    ∷ bool false
    ∷ []

js_subscribe_test :
    decode spelled calls js_subscribe ≡ ok (remote_subscription_change "js" "bob" none [])
unfolding decode read_fields build build_as get insert
js_subscribe_test = refl

-- A request without data.
abbrev no_payload : List Call
no_payload =
    map 4
    ∷ str "type"
    ∷ str "request"
    ∷ str "documentId"
    ∷ str (text_of spelled 2)
    ∷ str "senderId"
    ∷ str "js"
    ∷ str "targetId"
    ∷ str "bob"
    ∷ []

no_payload_test : decode spelled calls no_payload ≡ err (missing_field "data")
unfolding decode read_fields build build_as get insert from_str
no_payload_test = refl
