-- ===== src/Document/Io.antt =====
-- The tasks that are handed to the caller and their results: samod-core/src/io/*.rs and
-- actors/document/io/*.rs. Task identifiers come from one counter of the process, a `usize` of
-- 64 bits.
use samod.Prelude.{ℕ, ◌+◌, ◌%◌, ◌^◌, Option}
use samod.Prelude.Map.{Map}
use samod.Storage.{StorageKey}
use samod.Network.{Bytes, IoTaskId, PeerId}
use samod.Share.{ShareConfig}

pub data StorageTask : Type 0 where
  load : StorageKey → StorageTask
  load_range : StorageKey → StorageTask
  put : StorageKey → Bytes → StorageTask
  delete : StorageKey → StorageTask

pub data StorageResult : Type 0 where
  load : Option Bytes → StorageResult
  load_range : Map StorageKey Bytes → StorageResult
  put : StorageResult
  delete : StorageResult

pub record IoTask (Action : Type 0) : Type 0 where
  pub task_id : IoTaskId
  pub action : Action

pub record IoResult (Payload : Type 0) : Type 0 where
  pub task_id : IoTaskId
  pub payload : Payload

pub data DocumentIoTask : Type 0 where
  storage : StorageTask → DocumentIoTask
  check_share_policy : PeerId → DocumentIoTask

pub data DocumentIoResult : Type 0 where
  storage : StorageResult → DocumentIoResult
  check_share_policy : ShareConfig → DocumentIoResult

-- The counter after `IoTaskId::new` has taken its value.
abbrev pub next_id : ℕ → ℕ
next_id n = (n + 1) % 2 ^ 64

-- `IoTask::new`, with the counter's value.
abbrev pub new_task : {A : Type 0} → ℕ → A → IoTask A
new_task n action = record { task_id = n; action = action }

-- `IoTask::map`
abbrev pub map_task : {A B : Type 0} → (A → B) → IoTask A → IoTask B
map_task f task = record { task_id = task.task_id; action = f task.action }
