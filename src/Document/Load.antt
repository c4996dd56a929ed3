-- ===== src/Document/Load.antt =====
-- The load of a document from storage: samod-core/src/actors/document/load.rs. A panic is `none`.
-- `step` takes the counter of task identifiers.
pub mod Complete
use samod.Prelude.{
  ℕ, String, Bool, false, ◌||◌, Option, none, some, List, [], ◌∷◌, ◌==◌, nat_eq, if◌then◌else◌,
}
use samod.Prelude.Map.{Map}
use samod.Prelude.Panic.{◌>>=◌}
use samod.Network.{Bytes, DocumentId, IoTaskId}
use samod.Storage.{StorageKey, snapshot_prefix, incremental_prefix}
use samod.Document.Io.{StorageTask, StorageResult, IoTask, new_task, next_id}

abbrev pub Chunks : Type 0
Chunks = Map StorageKey Bytes

-- `waiting_for_results` has the two tasks, of the snapshots and of the incrementals, and what has
-- come of them.
pub data LoadState : Type 0 where
  idle initial : LoadState
  waiting_for_results : IoTaskId → IoTaskId → Option Chunks → Option Chunks → LoadState
  complete : Chunks → Chunks → LoadState

pub record Load : Type 0 where
  pub doc_id : DocumentId
  pub state : LoadState

pub record LoadComplete : Type 0 where
  pub snapshots : Chunks
  pub incrementals : Chunks

abbrev pub new : DocumentId → Load
new doc_id = record { doc_id = doc_id; state = idle }

abbrev pub begin : Load → Load
begin l = elim l.state [ idle ↦ record l { state = initial } | _ ↦ l ]

unfoldable pub has_task : IoTaskId → Load → Bool
has_task task_id l = elim l.state [
  | waiting_for_results snapshot_id incremental_id snapshots incrementals ↦
      snapshot_id == task_id || incremental_id == task_id
  | _ ↦ false
]

-- The two tasks that a load starts with, where the counter stands at `n`.
abbrev pub load_tasks : (DocumentId → String) → ℕ → DocumentId → List (IoTask StorageTask)
load_tasks document_text n doc_id =
    new_task n (StorageTask.load_range (snapshot_prefix (document_text doc_id)))
    ∷ new_task (next_id n) (StorageTask.load_range (incremental_prefix (document_text doc_id)))
    ∷ []

-- The tasks to dispatch, the counter and the load.
unfoldable pub step : (DocumentId → String) → ℕ → Load → List (IoTask StorageTask) × ℕ × Load
step document_text n l = elim l.state [
  | initial ↦ (
    load_tasks document_text n l.doc_id,
    next_id (next_id n),
    record l { state = waiting_for_results n (next_id n) none none },
  )
  | _ ↦ ([], n, l)
]

unfoldable pub take_complete : Load → Option LoadComplete × Load
take_complete l = elim l.state [
  | complete snapshots incrementals ↦ (
    some (record { snapshots = snapshots; incrementals = incrementals }),
    record l { state = idle },
  )
  | _ ↦ (none, l)
]

abbrev settle : IoTaskId → IoTaskId → Option Chunks → Option Chunks → LoadState
settle snapshot_id incremental_id (some snapshots) (some incrementals) =
    complete snapshots incrementals
settle snapshot_id incremental_id snapshots incrementals =
    waiting_for_results snapshot_id incremental_id snapshots incrementals

abbrev loaded :
    IoTaskId → IoTaskId → IoTaskId → Option Chunks → Option Chunks → Chunks → Option LoadState
loaded task_id snapshot_id incremental_id snapshots incrementals values =
    if task_id == snapshot_id
    then some (settle snapshot_id incremental_id (some values) incrementals)
    else if task_id == incremental_id
    then some (settle snapshot_id incremental_id snapshots (some values))
    else none

abbrev pub after_result : IoTaskId → StorageResult → LoadState → Option LoadState
after_result task_id (StorageResult.load_range values)
      (waiting_for_results s i snapshots incrementals) =
    loaded task_id s i snapshots incrementals values
after_result task_id result state = none

unfoldable pub handle_result : IoTaskId → StorageResult → Load → Option Load
handle_result task_id result l =
    after_result task_id result l.state >>= λ state. some (record l { state = state })
