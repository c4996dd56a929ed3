-- ===== src/Document/OnDisk.antt =====
-- What of a document is on disk, and its compactions: samod-core/src/actors/document/on_disk_state.rs.
-- A panic is `none`.
pub mod Runs
pub mod Saves
pub mod Deletions
use samod.Prelude.{
  Bool, true, false, ◌||◌, Option, none, some, List, [], ◌∷◌, ◌==◌, nat_eq, string_eq, list_eq, ltb,
  if◌then◌else◌,
}
use samod.Prelude.Lists.{length, is_empty, set_insert, set_remove}
use samod.Prelude.Map.{Map, get, insert, remove, contains_key}
use samod.Network.{Bytes, ChangeHash, DocumentId, IoTaskId}
use samod.Storage.{StorageKey, snapshot_path, incremental_path}
use samod.Document.Io.{StorageResult}
use samod.Document.Library.{Automerge}
use samod.Document.Results.{DocActorResult, put, delete}

pub record Compaction : Type 0 where
  pub task : IoTaskId
  pub supercedes : List StorageKey

pub record OnDiskState : Type 0 where
  pub last_saved_heads : Option (List ChangeHash)
  pub on_disk : List StorageKey
  pub compaction : Option Compaction
  pub deletions : List StorageKey
  pub running_puts : Map IoTaskId StorageKey
  pub running_deletes : Map IoTaskId StorageKey

abbrev pub new : OnDiskState
new = record {
  last_saved_heads = none;
  on_disk = [];
  compaction = none;
  deletions = [];
  running_puts = [];
  running_deletes = [];
}

-- `HashSet::extend`
abbrev pub extend : List StorageKey → List StorageKey → List StorageKey
extend set [] = set
extend set (key ∷ keys) = extend (set_insert key set) keys

-- `for key in keys { set.remove(key) }`
abbrev pub remove_all : List StorageKey → List StorageKey → List StorageKey
remove_all [] set = set
remove_all (key ∷ keys) set = remove_all keys (set_remove key set)

abbrev pub add_keys : List StorageKey → OnDiskState → OnDiskState
add_keys contents s = record s { on_disk = extend s.on_disk contents }

abbrev pub is_flushed : OnDiskState → Bool
is_flushed s = is_empty s.running_puts

abbrev pub has_task : IoTaskId → OnDiskState → Bool
has_task task_id s = contains_key task_id s.running_puts || contains_key task_id s.running_deletes

abbrev is_task : IoTaskId → Option Compaction → Option (List StorageKey)
is_task task_id none = none
is_task task_id (some compaction) =
    if compaction.task == task_id then some compaction.supercedes else none

-- What the put of `task_id` supersedes, where it is the compaction's.
abbrev pub superceded : IoTaskId → OnDiskState → Option (List StorageKey)
superceded task_id s = is_task task_id s.compaction

abbrev finish_compaction : Option (List StorageKey) → OnDiskState → OnDiskState
finish_compaction none s = s
finish_compaction (some supercedes) s = record s {
  on_disk = remove_all supercedes s.on_disk;
  deletions = extend s.deletions supercedes;
  compaction = none;
}

unfoldable pub mark_put_complete : IoTaskId → StorageKey → OnDiskState → OnDiskState
mark_put_complete task_id key s =
    let s' = finish_compaction (superceded task_id s) s in
    record s' { on_disk = set_insert key s'.on_disk }

abbrev pub mark_delete_complete : StorageKey → OnDiskState → OnDiskState
mark_delete_complete key s = record s { on_disk = set_remove key s.on_disk }

abbrev put_complete : IoTaskId → Option StorageKey → OnDiskState → Option OnDiskState
put_complete task_id none s = none
put_complete task_id (some key) s =
    some (mark_put_complete task_id key (record s { running_puts = remove task_id s.running_puts }))

abbrev delete_complete : IoTaskId → Option StorageKey → OnDiskState → Option OnDiskState
delete_complete task_id none s = none
delete_complete task_id (some key) s =
    some
      (mark_delete_complete key (record s { running_deletes = remove task_id s.running_deletes }))

unfoldable pub task_complete : IoTaskId → StorageResult → OnDiskState → Option OnDiskState
task_complete task_id StorageResult.put s = put_complete task_id (get task_id s.running_puts) s
task_complete task_id StorageResult.delete s =
    delete_complete task_id (get task_id s.running_deletes) s
task_complete task_id _ s = none

-- A document's on-disk state and the result under construction.
abbrev pub Turn : Type 0
Turn = OnDiskState × DocActorResult

abbrev pub track_put : StorageKey → Bytes → Turn → Turn
track_put key value (s, out) =
    let (put_id, out') = put out key value in
    (record s { running_puts = insert put_id key s.running_puts }, out')

abbrev pub track_delete : StorageKey → Turn → Turn
track_delete key (s, out) =
    let (delete_id, out') = delete out key in
    (record s { running_deletes = insert delete_id key s.running_deletes }, out')

-- `for deletion in self.deletions.drain()`
abbrev pub drain_deletions : List StorageKey → Turn → Turn
drain_deletions [] (s, out) = (record s { deletions = [] }, out)
drain_deletions (deletion ∷ deletions) turn = drain_deletions deletions (track_delete deletion turn)

abbrev pub saved_heads : Option (List ChangeHash) → List ChangeHash
saved_heads none = []
saved_heads (some heads) = heads

module _ (am : Automerge) where
  abbrev pub change_key : DocumentId → am.Change → StorageKey
  change_key doc_id change = incremental_path (am.document_text doc_id) (am.change_text change)

  abbrev pub put_changes : DocumentId → List am.Change → Turn → Turn
  put_changes doc_id [] turn = turn
  put_changes doc_id (change ∷ changes) turn =
      put_changes doc_id changes (track_put (change_key doc_id change) (am.raw_bytes change) turn)

  abbrev pub snapshot_key : DocumentId → am.Doc → StorageKey
  snapshot_key doc_id doc =
      snapshot_path (am.document_text doc_id) (am.compaction_text (am.get_heads doc))

  abbrev pub start_compaction : DocumentId → am.Doc → Turn → Turn
  start_compaction doc_id doc (s, out) =
      let key = snapshot_key doc_id doc in
      let (s', out') = track_put key (am.save doc) (s, out) in
      let begun : Compaction = (record {
        task = out.next_task_id;
        supercedes = set_remove key s.on_disk;
      }) in
      (record s' { compaction = some begun }, out')

  abbrev pub eligible_for_compaction : List am.Change → OnDiskState → Bool
  eligible_for_compaction new_changes s = ltb 10 (length new_changes) || ltb 10 (length s.on_disk)

  abbrev pub is_compacting : OnDiskState → Bool
  is_compacting s = elim s.compaction [ none ↦ false | some c ↦ true ]

  abbrev pub put_new : DocumentId → am.Doc → Turn → Turn
  put_new doc_id doc (s, out) =
      let new_changes = am.get_changes doc (saved_heads s.last_saved_heads) in
      if is_compacting s
      then put_changes doc_id new_changes (s, out)
      else if eligible_for_compaction new_changes s
      then start_compaction doc_id doc (s, out)
      else put_changes doc_id new_changes (s, out)

  unfoldable pub save_new_changes : DocumentId → am.Doc → Turn → Turn
  save_new_changes doc_id doc turn =
      let (s, out) = put_new doc_id doc turn in
      let (s', out') = drain_deletions s.deletions (s, out) in
      (record s' { last_saved_heads = some (am.get_heads doc) }, out')
