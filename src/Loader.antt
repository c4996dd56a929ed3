-- ===== src/Loader.antt =====
-- The loader of a repository: samod-core/src/loader.rs. A panic is `none`.
-- What the random generator would draw for a storage identifier and for a session, and the counters
-- of the process, are arguments of a step; `from_utf8` and `as_bytes` are those of Rust's `String`.
pub mod Boot
mod Tests
use samod.Prelude.{ℕ, String, Option, none, some, List, [], ◌∷◌, ◌==◌, nat_eq, if◌then◌else◌}
use samod.Network.{Bytes, IoTaskId, PeerId, StorageId}
use samod.Storage.{storage_id_path}
use samod.Ephemera
use samod.Hub.State
use samod.Hub.State.{State, Counters}
use samod.Document.Io.{StorageTask, StorageResult, IoTask, IoResult, new_task, next_id}

pub data LoaderPhase : Type 0 where
  starting : LoaderPhase
  loading_storage_id : IoTaskId → LoaderPhase
  storage_id_loaded : Option Bytes → LoaderPhase
  putting_storage_id : IoTaskId → StorageId → LoaderPhase
  done : StorageId → LoaderPhase

pub record SamodLoader : Type 0 where
  pub local_peer_id : PeerId
  pub state : LoaderPhase

pub data LoaderState : Type 0 where
  need_io : List (IoTask StorageTask) → LoaderState
  loaded : State → LoaderState

-- What a step takes from its surroundings.
pub record Draws : Type 0 where
  pub task_id : ℕ
  pub storage_id : StorageId
  pub session_id : String
  pub counters : Counters

abbrev pub new : PeerId → SamodLoader
new local_peer_id = record { local_peer_id = local_peer_id; state = starting }

abbrev pub hub_of : SamodLoader → Draws → StorageId → State
hub_of l draws storage_id =
    State.new storage_id l.local_peer_id (Ephemera.new draws.session_id) draws.counters

module _ (from_utf8 : Bytes → Option String) (as_bytes : String → Bytes) where
  abbrev put_new_id : Draws → SamodLoader → LoaderState × SamodLoader
  put_new_id draws l = (
    need_io
        (new_task draws.task_id (StorageTask.put storage_id_path (as_bytes draws.storage_id)) ∷ []),
    record l { state = putting_storage_id draws.task_id draws.storage_id },
  )

  abbrev use_id : Draws → SamodLoader → Option StorageId → LoaderState × SamodLoader
  use_id draws l none = put_new_id draws l
  use_id draws l (some storage_id) =
      (loaded (hub_of l draws storage_id), record l { state = done storage_id })

  abbrev pub read_id : Option Bytes → Option StorageId
  read_id none = none
  read_id (some bytes) = from_utf8 bytes

  abbrev step_in : Draws → SamodLoader → LoaderPhase → LoaderState × SamodLoader
  step_in draws l starting = (
    need_io (new_task draws.task_id (StorageTask.load storage_id_path) ∷ []),
    record l { state = loading_storage_id draws.task_id },
  )
  step_in draws l (loading_storage_id task_id) = (need_io [], l)
  step_in draws l (storage_id_loaded result) = use_id draws l (read_id result)
  step_in draws l (putting_storage_id task_id storage_id) = (need_io [], l)
  step_in draws l (done storage_id) = (loaded (hub_of l draws storage_id), l)

  unfoldable pub step : Draws → SamodLoader → LoaderState × SamodLoader
  step draws l = step_in draws l l.state

abbrev after_result : IoTaskId → StorageResult → LoaderPhase → Option LoaderPhase
after_result task_id (StorageResult.load value) (loading_storage_id io_task_id) =
    if io_task_id == task_id then some (storage_id_loaded value) else none
after_result task_id StorageResult.put (putting_storage_id io_task_id storage_id) =
    if io_task_id == task_id then some (done storage_id) else none
after_result task_id result phase = none

unfoldable pub provide_io_result : IoResult StorageResult → SamodLoader → Option SamodLoader
provide_io_result result l = elim (after_result result.task_id result.payload l.state) [
  | none ↦ none
  | some state ↦ some (record l { state = state })
]
