-- ===== src/Document/OnDisk/Runs.antt =====
-- Any run of a document's on-disk state, with the compactions that it has finished:
-- samod-core/src/actors/document/on_disk_state.rs.
use samod.Prelude.{
  Bool, true, false, not, ◌&&◌, Option, none, some, List, [], ◌∷◌, ◌≡◌, ◌==◌, nat_eq, string_eq,
  list_eq, if◌then◌else◌,
}
use samod.Prelude.Lists.{any, contains}
use samod.Prelude.Panic.{◌>>=◌}
use samod.Network.{DocumentId, IoTaskId}
use samod.Storage.{StorageKey}
use samod.Document.Io.{StorageTask, StorageResult, DocumentIoTask, IoTask}
use samod.Document.Library.{Automerge}
use samod.Document.Results.{DocActorResult}
use samod.Document.OnDisk.{
  Compaction, OnDiskState, new, add_keys, task_complete, snapshot_key, save_new_changes,
  is_compacting,
}

-- A compaction whose snapshot has been written: the task that wrote it, the snapshot's key and what
-- it supersedes.
abbrev pub Finished : Type 0
Finished = IoTaskId × StorageKey × List StorageKey

abbrev covers : StorageKey → Finished → Bool
covers key (task_id, snapshot, supercedes) = contains supercedes key && not (snapshot == key)

-- A finished compaction other than the one that wrote `key` supersedes `key`.
abbrev pub IsSuperceded : List Finished → StorageKey → Type 0
IsSuperceded finished key = any (covers key) finished ≡ true

abbrev StorageOk : List Finished → StorageTask → Type 0
StorageOk finished (StorageTask.delete key) = IsSuperceded finished key
StorageOk finished _ = Unit

abbrev pub ActionOk : List Finished → DocumentIoTask → Type 0
ActionOk finished (DocumentIoTask.storage task) = StorageOk finished task
ActionOk finished _ = Unit

-- If the task deletes a key, the key is superseded.
abbrev pub TaskOk : List Finished → IoTask DocumentIoTask → Type 0
TaskOk finished task = ActionOk finished task.action

-- The task puts something under the key.
abbrev is_put : StorageKey → DocumentIoTask → Bool
is_put key (DocumentIoTask.storage (StorageTask.put other value)) = other == key
is_put key _ = false

abbrev pub writes : IoTaskId → StorageKey → IoTask DocumentIoTask → Bool
writes task_id key task = task.task_id == task_id && is_put key task.action

-- The task that wrote the snapshot was issued as a put of the snapshot's key.
abbrev pub IsWritten : List (IoTask DocumentIoTask) → Finished → Type 0
IsWritten tasks (task_id, snapshot, supercedes) = any (writes task_id snapshot) tasks ≡ true

-- Of the compaction that the last save has found or begun: `snapshot` is the key that it writes, and
-- `writing` the identifier of the task that writes it, the next in turn when it was begun. They are
-- kept apart from the state, which does not have the key and has an identifier of its own.
pub record Trace : Type 0 where
  pub state : OnDiskState
  pub out : DocActorResult
  pub snapshot : StorageKey
  pub writing : IoTaskId
  pub finished : List Finished

abbrev pub start : DocActorResult → Trace
start out = record { state = new; out = out; snapshot = []; writing = 0; finished = [] }

abbrev pub is_compacting_now : Option Compaction → Bool
is_compacting_now none = false
is_compacting_now (some compaction) = true

abbrev pub superceded_by : Option Compaction → List StorageKey
superceded_by none = []
superceded_by (some compaction) = compaction.supercedes

-- The compaction is finished when the task that writes its snapshot is.
abbrev pub noted : IoTaskId → Trace → List Finished
noted task_id t =
    if is_compacting_now t.state.compaction && t.writing == task_id
    then (t.writing, t.snapshot, superceded_by t.state.compaction) ∷ t.finished
    else t.finished

abbrev after_result : IoTaskId → StorageResult → Trace → List Finished
after_result task_id StorageResult.put t = noted task_id t
after_result task_id _ t = t.finished

module _ (am : Automerge) where
  pub data Op : Type 0 where
    found_on_disk : List StorageKey → Op
    saved : DocumentId → am.Doc → Op
    completed : IoTaskId → StorageResult → Op

  abbrev pub after_save : DocumentId → am.Doc → Trace → Trace
  after_save doc_id doc t =
      let (s, out) = save_new_changes am doc_id doc (t.state, t.out) in
      record {
        state = s;
        out = out;
        snapshot = if is_compacting am t.state then t.snapshot else snapshot_key am doc_id doc;
        writing = if is_compacting am t.state then t.writing else t.out.next_task_id;
        finished = t.finished;
      }

  unfoldable pub step : Op → Trace → Option Trace
  step (found_on_disk contents) t = some (record t { state = add_keys contents t.state })
  step (saved doc_id doc) t = some (after_save doc_id doc t)
  step (completed task_id result) t = task_complete task_id result t.state >>= λ s.
      some (record t { state = s; finished = after_result task_id result t })

  unfoldable pub run : List Op → Trace → Option Trace
  run [] t = some t
  run (op ∷ ops) t = step op t >>= run ops
