-- ===== src/Storage.antt =====
-- Keys of the storage: samod-core/src/storage_key.rs. A key is its list of components. The texts of
-- a document identifier, a change hash and a compaction hash are arguments.
pub mod Keys
mod Tests
use Prim.Native.Char.{code}
use Prim.Native.String.{String as Text, [] as empty, ◌∷◌ as cons}
use samod.Prelude.{
  ℕ, ◌+◌, String, Bool, true, false, not, ◌&&◌, ◌||◌, Option, none, some, List, [], ◌∷◌, ◌++◌, ◌==◌,
  string_eq, nat_eq, ltb, if◌then◌else◌,
}
use samod.Prelude.Lists.{length, take}
use samod.Prelude.Result.{Result, ok, err, ◌>>=◌}

abbrev pub StorageKey : Type 0
StorageKey = List String

pub data InvalidStorageKey : Type 0 where
  invalid_storage_key : InvalidStorageKey

abbrev pub storage_id_path : StorageKey
storage_id_path = "storage-adapter-id" ∷ []

abbrev pub incremental_prefix : String → StorageKey
incremental_prefix doc_id = doc_id ∷ "incremental" ∷ []

abbrev pub incremental_path : String → String → StorageKey
incremental_path doc_id change_hash = doc_id ∷ "incremental" ∷ change_hash ∷ []

abbrev pub snapshot_prefix : String → StorageKey
snapshot_prefix doc_id = doc_id ∷ "snapshot" ∷ []

abbrev pub snapshot_path : String → String → StorageKey
snapshot_path doc_id compaction_hash = doc_id ∷ "snapshot" ∷ compaction_hash ∷ []

-- `part.contains("/")`
abbrev pub has_slash : String → Bool
has_slash empty = false
has_slash (cons c s) = code c == 47 || has_slash s

-- `part.is_empty() || part.contains("/")`
abbrev pub is_invalid : String → Bool
is_invalid empty = true
is_invalid (cons c s) = has_slash (cons c s)

unfoldable pub from_parts : List String → Result InvalidStorageKey StorageKey
from_parts [] = ok []
from_parts (part ∷ parts) =
    let rest = from_parts parts in
    if is_invalid part then err invalid_storage_key else rest >>= λ key. ok (part ∷ key)

-- `zip` and `all`: as far as both reach.
abbrev pub agree : StorageKey → StorageKey → Bool
agree (a ∷ key) (b ∷ other) = a == b && agree key other
agree _ _ = true

unfoldable pub is_prefix_of : StorageKey → StorageKey → Bool
is_prefix_of key other = if ltb (length other) (length key) then false else agree key other

unfoldable pub onelevel_deeper : StorageKey → StorageKey → Option StorageKey
unfolding is_prefix_of
onelevel_deeper key prefix =
    if is_prefix_of prefix key && ltb (length prefix) (length key)
    then some (take (length prefix + 1) key)
    else none

abbrev pub with_suffix : StorageKey → StorageKey → StorageKey
with_suffix key suffix = key ++ suffix

unfoldable pub with_component : StorageKey → String → Result InvalidStorageKey StorageKey
with_component key component =
    if is_invalid component then err invalid_storage_key else ok (key ++ component ∷ [])
