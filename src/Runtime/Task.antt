-- ===== src/Runtime/Task.antt =====
-- What is dispatched to a document's actor: samod/src/actor_task.rs. A closure is of a type `F`.
use samod.Network.{IoTaskId}
use samod.Share.{ShareConfig}
use samod.Messages.{HubToDocMsg}
use samod.Document.Io.{IoResult, DocumentIoResult}

pub data ActorTask (F : Type 0) : Type 0 where
  handle_message : HubToDocMsg → ActorTask F
  io_complete : IoResult DocumentIoResult → ActorTask F
  with_document : F → ActorTask F

-- `answer` of samod/src/io_loop/share_policy.rs
abbrev pub answer : {F : Type 0} → IoTaskId → ShareConfig → ActorTask F
answer task_id config =
    io_complete (record { task_id = task_id; payload = DocumentIoResult.check_share_policy config })
