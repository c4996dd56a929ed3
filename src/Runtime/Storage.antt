-- ===== src/Runtime/Storage.antt =====
-- The storage of a repository and the one in memory: samod/src/storage.rs and
-- samod/src/storage/in_memory.rs. The map behind the mutex is passed from call to call, and a call
-- is the map before and after it.
pub mod Memory
use samod.Prelude.{
  ◌≡◌, ◌≢◌, Bool, true, Option, none, some, List, ◌==◌, if◌then◌else◌, string_eq, list_eq,
}
use samod.Prelude.Map.{Map, get}
use samod.Network.{Bytes}
use samod.Storage.{StorageKey, is_prefix_of}
use samod.Document.Io.{StorageTask, StorageResult}

-- The trait `Storage`.
pub record Storage : Type 1 where
  pub Contents : Type 0
  pub load : StorageKey → Contents → Option Bytes
  pub load_range : StorageKey → Contents → Map StorageKey Bytes
  pub put : StorageKey → Bytes → Contents → Contents
  pub delete : StorageKey → Contents → Contents

-- A storage is a finite map from keys: a range is the part of it under a prefix.
pub record IsLawful (S : Storage) : Type 0 where
  pub load-put :
      (key other : StorageKey) (bytes : Bytes) (s : S.Contents)
      → S.load other (S.put key bytes s) ≡ (if key == other then some bytes else S.load other s)
  pub load-delete :
      (key other : StorageKey) (s : S.Contents)
      → S.load other (S.delete key s) ≡ (if key == other then none else S.load other s)
  pub get-load_range :
      (prefix key : StorageKey) (s : S.Contents)
      → get key (S.load_range prefix s) ≡ (if is_prefix_of prefix key then S.load key s else none)

module _ (S : Storage) where
  -- `dispatch_storage_task` of samod/src/io_loop.rs: a task is carried out.
  abbrev pub dispatch_storage_task : StorageTask → S.Contents → StorageResult × S.Contents
  dispatch_storage_task (StorageTask.load key) s = (StorageResult.load (S.load key s), s)
  dispatch_storage_task (StorageTask.load_range prefix) s =
      (StorageResult.load_range (S.load_range prefix s), s)
  dispatch_storage_task (StorageTask.put key bytes) s = (StorageResult.put, S.put key bytes s)
  dispatch_storage_task (StorageTask.delete key) s = (StorageResult.delete, S.delete key s)
