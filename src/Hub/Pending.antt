-- ===== src/Hub/Pending.antt =====
-- Commands that complete later: samod-core/src/actors/hub/state/pending_commands.rs.
use samod.Prelude.{Option, none, some, List, [], ◌∷◌, ◌++◌, map, nat_eq}
use samod.Prelude.Map.{Map, get, insert, remove}
use samod.Network.{DocumentActorId, DocumentId, CommandId}
use samod.Hub.Results.{CommandResult, create_document}

pub record PendingCommands : Type 0 where
  pub pending_create_commands : Map DocumentActorId (List CommandId)
  pub completed_commands : List (CommandId × CommandResult)

abbrev pub new : PendingCommands
new = record { pending_create_commands = []; completed_commands = [] }

abbrev or_default : Option (List CommandId) → List CommandId
or_default none = []
or_default (some ids) = ids

unfoldable pub add_pending_create_command :
    DocumentActorId → CommandId → PendingCommands → PendingCommands
add_pending_create_command actor_id command_id p = record p {
  pending_create_commands =
      insert actor_id (or_default (get actor_id p.pending_create_commands) ++ command_id ∷ [])
        p.pending_create_commands;
}

unfoldable pub resolve_pending_create :
    DocumentActorId → DocumentId → PendingCommands → PendingCommands
resolve_pending_create actor_id document_id p = elim (get actor_id p.pending_create_commands) [
  | none ↦ p
  | some command_ids ↦ record {
    pending_create_commands = remove actor_id p.pending_create_commands;
    completed_commands =
        p.completed_commands
        ++ map (λ command_id. (command_id, create_document actor_id document_id)) command_ids;
  }
]

unfoldable pub pop_completed_commands :
    PendingCommands → PendingCommands × List (CommandId × CommandResult)
pop_completed_commands p = (record p { completed_commands = [] }, p.completed_commands)
