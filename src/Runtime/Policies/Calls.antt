-- ===== src/Runtime/Policies/Calls.antt =====
-- Any sequence of the io loop's calls on its sharing decisions, with what it has dispatched:
-- samod/src/io_loop/share_policy.rs.
use samod.Prelude.{
  Option, none, some, List, [], ◌∷◌, ◌==◌, nat_eq, string_eq, pair_eq, if◌then◌else◌,
}
use samod.Network.{DocumentActorId, DocumentId, IoTaskId, PeerId}
use samod.Share.{ShareConfig, config_eq}
use samod.Messages.{HubToDocMsg}
use samod.Document.Io.{DocumentIoResult}
use samod.Runtime.Task.{ActorTask, handle_message, io_complete}
use samod.Runtime.Policies.{
  Pair, Policies, PolicyEvent, Check, answered, set_peers, clear, check, handle_event,
}

-- The decision that a task tells its actor.
abbrev decision_told : {F : Type 0} → ActorTask F → Option ShareConfig
decision_told (handle_message (HubToDocMsg.update_share_policy peer_id config)) = some config
decision_told (io_complete result) = elim result.payload [
  | DocumentIoResult.check_share_policy config ↦ some config
  | _ ↦ none
]
decision_told _ = none

-- What has been dispatched for each pair, the latest first.
abbrev pub Log : Type 0 → Type 0
Log F = List (Pair × ActorTask F)

abbrev or_else : Option ShareConfig → Option ShareConfig → Option ShareConfig
or_else none o = o
or_else (some c) o = some c

module _ {F : Type 0} where
  abbrev pub last_told : Pair → Log F → Option ShareConfig
  last_told pair [] = none
  last_told pair ((other, task) ∷ log) =
      let before = last_told pair log in
      if other == pair then or_else (decision_told task) before else before

  abbrev pub tell : Pair → List (ActorTask F) → Log F → Log F
  tell pair [] log = log
  tell pair (task ∷ tasks) log = tell pair tasks ((pair, task) ∷ log)

  abbrev pub dispatched : Check F → List (ActorTask F)
  dispatched (answered task) = task ∷ []
  dispatched _ = []

pub record World (F : Type 0) : Type 0 where
  pub policies : Policies
  pub log : Log F

abbrev pub fresh : (F : Type 0) → World F
fresh F = record { policies = []; log = [] }

-- The calls of the io loop: an event may be of any stream, also of one that is no more.
pub data Op : Type 0 where
  peers_changed : DocumentActorId → List PeerId → Op
  stop : Op
  asked : DocumentActorId → DocumentId → PeerId → IoTaskId → Op
  yielded : PolicyEvent → Op

module _ {F : Type 0} (share : DocumentId → PeerId → List ShareConfig) where
  unfoldable pub step : Op → World F → World F
  step (peers_changed actor_id peers) w = record w {
    policies = set_peers actor_id peers w.policies;
  }
  step stop w = record w { policies = clear w.policies }
  step (asked actor_id document_id peer_id task_id) w =
      let (outcome, ps) = check share actor_id document_id peer_id task_id w.policies in
      record { policies = ps; log = tell (actor_id, peer_id) (dispatched outcome) w.log }
  step (yielded event) w =
      let (tasks, ps) = handle_event event w.policies in
      record { policies = ps; log = tell (event.actor_id, event.peer_id) tasks w.log }

  unfoldable pub run : List Op → World F → World F
  run [] w = w
  run (op ∷ ops) w = run ops (step op w)
