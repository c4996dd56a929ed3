-- ===== src/Runtime/Storage/Memory.antt =====
-- `InMemoryStorage`: samod/src/storage/in_memory.rs.
use samod.Prelude.{
  ◌≡◌, ap, none, [], ◌∷◌, ◌==◌, if◌then◌else◌, string_eq, list_eq, arith, Bool-cases, inl, inr,
}
use samod.Prelude.Map.{Map, get, insert, remove, get-insert, get-remove}
use samod.Network.{Bytes}
use samod.Storage.{StorageKey, is_prefix_of}
use samod.Runtime.Storage.{Storage, IsLawful}

-- `iter().filter(|(k, _)| prefix.is_prefix_of(k))`
unfoldable pub under : StorageKey → Map StorageKey Bytes → Map StorageKey Bytes
under prefix [] = []
under prefix ((key, bytes) ∷ rest) =
    let others = under prefix rest in
    if is_prefix_of prefix key then (key, bytes) ∷ others else others

abbrev pub in_memory : Storage
in_memory = record {
  Contents = Map StorageKey Bytes;
  load = get;
  load_range = under;
  put = insert;
  delete = remove;
}

get-under :
    (prefix key : StorageKey) (s : Map StorageKey Bytes)
    → get key (under prefix s) ≡ (if is_prefix_of prefix key then get key s else none)
unfolding get under
get-under prefix key [] = ground arith
get-under prefix key ((own, bytes) ∷ rest) =
    let ih = get-under prefix key rest in
    elim (Bool-cases (own == key)) [
      | inl same ↦
          (let moved = ap (is_prefix_of prefix) ((list_eq.same_iff own key).0 same) in
            elim (Bool-cases (is_prefix_of prefix own)) [
              | inl starts ↦ ground (arith, same, starts, ih, moved)
              | inr other ↦ ground (arith, same, other, ih, moved)
            ])
      | inr apart ↦ elim (Bool-cases (is_prefix_of prefix own)) [
        | inl starts ↦ ground (arith, apart, starts, ih)
        | inr other ↦ ground (arith, apart, other, ih)
      ]
    ]

-- The storage in memory is a finite map from keys, and loads as a range the entries under a prefix
-- and no others.
pub in_memory-IsLawful : IsLawful in_memory
in_memory-IsLawful = record {
  load-put = λ key other bytes s. get-insert key other bytes s;
  load-delete = λ key other s. get-remove key other s;
  get-load_range = get-under;
}
