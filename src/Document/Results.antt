-- ===== src/Document/Results.antt =====
-- What a step of a document actor hands back: samod-core/src/actors/document/doc_actor_result.rs
-- and sync_message_stat.rs, without the wall-clock times.
-- `next_task_id` is the process's counter of task identifiers, which the source keeps in a static.
use samod.Prelude.{ℕ, Bool, true, false, not, List, [], ◌∷◌, ◌++◌}
use samod.Prelude.Lists.{filter}
use samod.Prelude.Map.{Map}
use samod.Network.{ConnectionId, DocumentId, Bytes, ChangeHash, IoTaskId, PeerId, PeerDocState}
use samod.Messages.{
  SyncMessage, Broadcast, DocSearchPhase, DocToHubMsg, doc_search_changed, peer_states_changed,
  send_sync_message, broadcast, terminated,
}
use samod.Storage.{StorageKey}
use samod.Document.Io.{StorageTask, DocumentIoTask, IoTask, next_id, new_task}

pub data SyncDirection : Type 0 where
  received generated : SyncDirection

pub record SyncMessageStat : Type 0 where
  pub connection_id : ConnectionId
  pub direction : SyncDirection
  pub bytes : ℕ

pub record DocActorResult : Type 0 where
  pub io_tasks : List (IoTask DocumentIoTask)
  pub outgoing_messages : List DocToHubMsg
  pub ephemeral_messages : List Bytes
  pub change_events : List (List ChangeHash)
  pub stopped : Bool
  pub peer_state_changes : Map ConnectionId PeerDocState
  pub sync_message_stats : List SyncMessageStat
  pub pending_sync_messages : ℕ
  pub next_task_id : ℕ

-- `DocActorResult::new`
abbrev pub new : ℕ → DocActorResult
new n = record {
  io_tasks = [];
  outgoing_messages = [];
  ephemeral_messages = [];
  change_events = [];
  stopped = false;
  peer_state_changes = [];
  sync_message_stats = [];
  pending_sync_messages = 0;
  next_task_id = n;
}

abbrev pub push_message : DocActorResult → DocToHubMsg → DocActorResult
push_message out msg = record out { outgoing_messages = out.outgoing_messages ++ msg ∷ [] }

abbrev pub emit_ephemeral_message : DocActorResult → Bytes → DocActorResult
emit_ephemeral_message out msg = record out {
  ephemeral_messages = out.ephemeral_messages ++ msg ∷ [];
}

abbrev pub emit_doc_changed : DocActorResult → List ChangeHash → DocActorResult
emit_doc_changed out new_heads = record out { change_events = out.change_events ++ new_heads ∷ [] }

abbrev pub send_sync : DocActorResult → ConnectionId → DocumentId → SyncMessage → DocActorResult
send_sync out conn_id doc_id message = push_message out (send_sync_message conn_id doc_id message)

abbrev pub send_broadcast : DocActorResult → List ConnectionId → Broadcast → DocActorResult
send_broadcast out connections msg = push_message out (broadcast connections msg)

abbrev pub send_terminated : DocActorResult → DocActorResult
send_terminated out = push_message out terminated

abbrev pub is_search_change : DocToHubMsg → Bool
is_search_change (doc_search_changed phase) = true
is_search_change _ = false

abbrev pub is_peer_change : DocToHubMsg → Bool
is_peer_change (peer_states_changed states) = true
is_peer_change _ = false

abbrev pub not_search_change : DocToHubMsg → Bool
not_search_change msg = not (is_search_change msg)

abbrev pub not_peer_change : DocToHubMsg → Bool
not_peer_change msg = not (is_peer_change msg)

abbrev pub update_search_state : DocActorResult → DocSearchPhase → DocActorResult
update_search_state out phase = record out {
  outgoing_messages =
      filter not_search_change out.outgoing_messages ++ doc_search_changed phase ∷ [];
}

abbrev pub emit_peer_state_changes : DocActorResult → Map ConnectionId PeerDocState → DocActorResult
emit_peer_state_changes out new_states = record out {
  outgoing_messages =
      filter not_peer_change out.outgoing_messages ++ peer_states_changed new_states ∷ [];
  peer_state_changes = new_states;
}

-- The task's identifier and the result that holds it.
abbrev pub enqueue_task : DocActorResult → DocumentIoTask → IoTaskId × DocActorResult
enqueue_task out task = (
  out.next_task_id,
  record out {
    io_tasks = out.io_tasks ++ new_task out.next_task_id task ∷ [];
    next_task_id = next_id out.next_task_id;
  },
)

abbrev pub put : DocActorResult → StorageKey → Bytes → IoTaskId × DocActorResult
put out key value = enqueue_task out (DocumentIoTask.storage (StorageTask.put key value))

abbrev pub delete : DocActorResult → StorageKey → IoTaskId × DocActorResult
delete out key = enqueue_task out (DocumentIoTask.storage (StorageTask.delete key))

abbrev pub check_share_policy : DocActorResult → PeerId → IoTaskId × DocActorResult
check_share_policy out peer_id = enqueue_task out (DocumentIoTask.check_share_policy peer_id)
