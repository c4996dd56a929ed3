-- ===== src/Runtime/Policies.antt =====
-- The sharing decisions of the io loop: samod/src/io_loop/share_policy.rs. The policy is outside: a
-- stream of it is the list of the decisions that it yields before it ends. A subscription that is
-- dropped aborts its stream; here an aborted stream may still yield.
pub mod Calls
pub mod Slots
pub mod Current
use samod.Prelude.{
  Bool, not, ◌||◌, Option, none, some, List, [], ◌∷◌, ◌++◌, ◌==◌, map, nat_eq, string_eq, pair_eq,
  option_beq, if◌then◌else◌,
}
use samod.Prelude.Lists.{contains}
use samod.Prelude.Map.{Map, get, insert, retain}
use samod.Network.{DocumentActorId, DocumentId, IoTaskId, PeerId}
use samod.Share.{ShareConfig, deny, config_eq}
use samod.Messages.{update_share_policy}
use samod.Runtime.Task.{ActorTask, handle_message, answer}

pub record Subscription : Type 0 where
  pub id : IoTaskId
  pub latest : Option ShareConfig
  pub waiting : List IoTaskId

abbrev pub Pair : Type 0
Pair = DocumentActorId × PeerId

-- `none` for a pair that is active and whose first check has not come.
abbrev pub Policies : Type 0
Policies = Map Pair (Option Subscription)

-- `config` is `none` at the end of the stream.
pub record PolicyEvent : Type 0 where
  pub actor_id : DocumentActorId
  pub peer_id : PeerId
  pub subscription_id : IoTaskId
  pub config : Option ShareConfig

pub data Check (F : Type 0) : Type 0 where
  answered : ActorTask F → Check F
  pending : Check F
  subscribe : List PolicyEvent → Check F

-- `entry(pair).or_default()`
abbrev pub activate : Pair → Policies → Policies
activate pair ps = elim (get pair ps) [ none ↦ insert pair none ps | some slot ↦ ps ]

abbrev pub activate_all : DocumentActorId → List PeerId → Policies → Policies
activate_all actor_id [] ps = ps
activate_all actor_id (peer ∷ peers) ps = activate_all actor_id peers (activate (actor_id, peer) ps)

abbrev pub is_kept : DocumentActorId → List PeerId → Pair → Bool
is_kept actor_id peers (actor, peer) = not (actor == actor_id) || contains peers peer

unfoldable pub set_peers : DocumentActorId → List PeerId → Policies → Policies
set_peers actor_id peers ps = activate_all actor_id peers (retain (is_kept actor_id peers) ps)

abbrev pub clear : Policies → Policies
clear ps = []

abbrev pub event_of : DocumentActorId → PeerId → IoTaskId → Option ShareConfig → PolicyEvent
event_of actor_id peer_id task_id config = record {
  actor_id = actor_id;
  peer_id = peer_id;
  subscription_id = task_id;
  config = config;
}

-- Each decision, and then the end.
abbrev pub events_of : DocumentActorId → PeerId → IoTaskId → List ShareConfig → List PolicyEvent
events_of actor_id peer_id task_id decisions =
    map (event_of actor_id peer_id task_id) (map some decisions ++ none ∷ [])

abbrev pub first_check : IoTaskId → Subscription
first_check task_id = record { id = task_id; latest = none; waiting = task_id ∷ [] }

-- The decision that an event stands for, if it says anything.
abbrev pub decision_of : Option ShareConfig → Option ShareConfig → Option ShareConfig
decision_of latest (some config) = some config
decision_of none none = some deny
decision_of (some config) none = none

abbrev pub left_waiting : List IoTaskId → Option ShareConfig → List IoTaskId
left_waiting waiting none = []
left_waiting waiting (some previous) = waiting

module _ {F : Type 0} where
  -- A subscription that is there: its answer, or one more that waits.
  abbrev pub check_known :
      Pair → IoTaskId → Subscription → Option ShareConfig → Policies → Check F × Policies
  check_known pair task_id s (some config) ps = (answered (answer task_id config), ps)
  check_known pair task_id s none ps =
      (pending, insert pair (some (record s { waiting = s.waiting ++ task_id ∷ [] })) ps)

  abbrev pub check_slot :
      List ShareConfig
      → DocumentActorId
      → PeerId
      → IoTaskId
      → Option (Option Subscription)
      → Policies
      → Check F × Policies
  check_slot decisions actor_id peer_id task_id none ps = (pending, ps)
  check_slot decisions actor_id peer_id task_id (some (some s)) ps =
      check_known (actor_id, peer_id) task_id s s.latest ps
  check_slot decisions actor_id peer_id task_id (some none) ps = (
    subscribe (events_of actor_id peer_id task_id decisions),
    insert (actor_id, peer_id) (some (first_check task_id)) ps,
  )

  unfoldable pub check :
      (DocumentId → PeerId → List ShareConfig)
      → DocumentActorId
      → DocumentId
      → PeerId
      → IoTaskId
      → Policies
      → Check F × Policies
  check share actor_id document_id peer_id task_id ps =
      check_slot (share document_id peer_id) actor_id peer_id task_id (get (actor_id, peer_id) ps)
        ps

  abbrev pub tasks_for :
      PeerId → List IoTaskId → ShareConfig → Option ShareConfig → List (ActorTask F)
  tasks_for peer_id waiting config none = map (λ task. answer task config) waiting
  tasks_for peer_id waiting config (some previous) =
      handle_message (update_share_policy peer_id config) ∷ []

  abbrev pub decide :
      Pair → Subscription → Option ShareConfig → Policies → List (ActorTask F) × Policies
  decide pair s none ps = ([], ps)
  decide pair s (some config) ps =
      if option_beq s.latest (some config)
      then ([], insert pair (some (record s { latest = some config })) ps)
      else (
        tasks_for pair.1 s.waiting config s.latest,
        insert pair
            (some (record s { latest = some config; waiting = left_waiting s.waiting s.latest }))
            ps,
      )

  abbrev pub event_for :
      PolicyEvent → Option (Option Subscription) → Policies → List (ActorTask F) × Policies
  event_for event none ps = ([], ps)
  event_for event (some none) ps = ([], ps)
  event_for event (some (some s)) ps =
      if not (s.id == event.subscription_id)
      then ([], ps)
      else decide (event.actor_id, event.peer_id) s (decision_of s.latest event.config) ps

  unfoldable pub handle_event : PolicyEvent → Policies → List (ActorTask F) × Policies
  handle_event event ps = event_for event (get (event.actor_id, event.peer_id) ps) ps
