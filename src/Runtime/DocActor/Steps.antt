-- ===== src/Runtime/DocActor/Steps.antt =====
-- What a document actor has sent is taken up by the io loop, among other calls:
-- samod/src/doc_actor_inner.rs and samod/src/io_loop.rs.
use samod.Prelude.{
  true, false, Option, none, some, List, [], ◌∷◌, ◌++◌, ◌==◌, ◌≡◌, inl, inr, arith, nat_eq,
  string_eq, pair_eq, Option-cases,
}
use samod.Prelude.Lists.{contains}
use samod.Prelude.Map.{get, get-insert_same}
use samod.Network.{DocumentActorId, DocumentId, IoTaskId, PeerId}
use samod.Share.{ShareConfig}
use samod.Document.Io.{IoTask, DocumentIoTask}
use samod.Document.Actor.Checks.{AsksKnown}
use samod.Runtime.Policies.{
  Subscription, Pair, Policies, Check, answered, pending, subscribe, check, check_slot, check_known,
  handle_event,
}
use samod.Runtime.Policies.Calls.{Op, peers_changed, stop, asked, yielded, step}
use samod.Runtime.DocActor.{
  storage, document_peers_changed, stop_share_policies, Sent, to_io, share_task,
}
use samod.Runtime.DocActor.Pairs.{Active, check_slot-Grows, event_for-Grows, set_peers-kept}

-- What one actor has sent is taken up, or the loop makes another call.
pub data Step : Type 0 where
  mine : Sent → Step
  other : Op → Step

abbrev pub sent_of : List Step → List Sent
sent_of [] = []
sent_of (mine sent ∷ steps) = sent ∷ sent_of steps
sent_of (other op ∷ steps) = sent_of steps

-- The call says nothing of the actor's peers.
abbrev pub LeavesPeers : DocumentActorId → Op → Type 0
LeavesPeers actor_id (peers_changed changed peers) = (actor_id == changed) ≡ false
LeavesPeers actor_id stop = false ≡ true
LeavesPeers actor_id (asked asking document_id peer_id task_id) = Unit
LeavesPeers actor_id (yielded event) = Unit

abbrev pub AllLeavePeers : DocumentActorId → List Step → Type 0
AllLeavePeers actor_id [] = Unit
AllLeavePeers actor_id (mine sent ∷ steps) = AllLeavePeers actor_id steps
AllLeavePeers actor_id (other op ∷ steps) = LeavesPeers actor_id op × AllLeavePeers actor_id steps

contains-last : (xs : List IoTaskId) (x : IoTaskId) → contains (xs ++ x ∷ []) x ≡ true
contains-last [] x = ground (arith, nat_eq.same_iff x x)
contains-last (y ∷ xs) x = ground (arith, contains-last xs x)

module _ {F : Type 0} where
  -- A check is answered, begins a subscription, or waits for one.
  abbrev pub IsTakenUp : Pair → IoTaskId → Check F × Policies → Type 0
  IsTakenUp pair task_id (answered task, ps) = Unit
  IsTakenUp pair task_id (subscribe events, ps) = Unit
  IsTakenUp pair task_id (pending, ps) =
      (s : Subscription) × (get pair ps ≡ some (some s)) × (contains s.waiting task_id ≡ true)

  -- A message that asks is taken up.
  abbrev pub AskTakenUp : IoTask DocumentIoTask → DocumentActorId → Check F × Policies → Type 0
  AskTakenUp task actor_id r = elim task.action [
    | DocumentIoTask.storage action ↦ Unit
    | DocumentIoTask.check_share_policy peer_id ↦ IsTakenUp (actor_id, peer_id) task.task_id r
  ]

  abbrev pub SentTakenUp : Sent → Check F × Policies → Type 0
  SentTakenUp (to_io (storage doc_id task actor_id)) r = AskTakenUp task actor_id r
  SentTakenUp _ r = Unit

module _ (F : Type 0) where
  check_slot-IsTakenUp :
      (decisions : List ShareConfig) (actor_id : DocumentActorId) (peer_id : PeerId)
      (task_id : IoTaskId) (slot : Option Subscription) (ps : Policies)
      → IsTakenUp
          (actor_id, peer_id)
          task_id
          (check_slot {F = F} decisions actor_id peer_id task_id (some slot) ps)
  check_slot-IsTakenUp decisions actor_id peer_id task_id none ps = tt
  check_slot-IsTakenUp decisions actor_id peer_id task_id (some s) ps = known s.latest
    where
      known :
          (latest : Option ShareConfig)
          → IsTakenUp
              (actor_id, peer_id)
              task_id
              (check_known {F = F} (actor_id, peer_id) task_id s latest ps)
      known none = (
        record s { waiting = s.waiting ++ task_id ∷ [] },
        get-insert_same (actor_id, peer_id) _ ps,
        contains-last s.waiting task_id,
      )
      known (some config) = tt

module _ (F : Type 0) (share : DocumentId → PeerId → List ShareConfig) where
  unfoldable pub take_up : Sent → Policies → Check F × Policies
  take_up (to_io task) ps = share_task share false task ps
  take_up _ ps = (pending, ps)

  unfoldable pub step_on : Step → Policies → Policies
  step_on (mine sent) ps = (take_up sent ps).1
  step_on (other op) ps = (step {F = F} share op (record { policies = ps; log = [] })).policies

  unfoldable pub AllTakenUp : List Step → Policies → Type 0
  AllTakenUp [] ps = Unit
  AllTakenUp (mine sent ∷ steps) ps =
      SentTakenUp sent (take_up sent ps) × AllTakenUp steps (step_on (mine sent) ps)
  AllTakenUp (other op ∷ steps) ps = AllTakenUp steps (step_on (other op) ps)

  unfoldable pub run_steps : List Step → Policies → Policies
  run_steps [] ps = ps
  run_steps (s ∷ steps) ps = run_steps steps (step_on s ps)

-- The peers that the actor has announced, after a message.
abbrev pub announced : List PeerId → Sent → List PeerId
announced peers (to_io (document_peers_changed actor_id new)) = new
announced peers _ = peers

abbrev pub last_announced : List PeerId → List Sent → List PeerId
last_announced peers [] = peers
last_announced peers (sent ∷ more) = last_announced (announced peers sent) more

-- A message of the actor asks about announced peers.
abbrev pub Fits : DocumentActorId → List PeerId → Sent → Type 0
Fits actor_id peers (to_io (storage doc_id task by)) = (by ≡ actor_id) × AsksKnown peers task
Fits actor_id peers (to_io (document_peers_changed by new)) = by ≡ actor_id
Fits actor_id peers (to_io stop_share_policies) = false ≡ true
Fits actor_id peers _ = Unit

abbrev pub Follows : DocumentActorId → List PeerId → List Sent → Type 0
Follows actor_id peers [] = Unit
Follows actor_id peers (sent ∷ more) =
    Fits actor_id peers sent × Follows actor_id (announced peers sent) more

module _ (F : Type 0) (share : DocumentId → PeerId → List ShareConfig) where
  pub op-Active :
      (actor_id : DocumentActorId) (peers : List PeerId) (op : Op) (ps : Policies)
      → LeavesPeers actor_id op
      → Active actor_id peers ps
      → Active actor_id peers (step_on F share (other op) ps)
  unfolding step_on step check handle_event
  op-Active actor_id peers (peers_changed changed new) ps differs active peer h =
      set_peers-kept actor_id changed new ps peer differs (active peer h)
  op-Active actor_id peers stop ps leaves active peer h = ground (arith, leaves)
  op-Active actor_id peers (asked by doc_id peer_id task_id) ps leaves active peer h =
      check_slot-Grows F (share doc_id peer_id) by peer_id task_id (get (by, peer_id) ps) ps
        (actor_id, peer) (active peer h)
  op-Active actor_id peers (yielded event) ps leaves active peer h =
      event_for-Grows F event (get (event.actor_id, event.peer_id) ps) ps (actor_id, peer)
        (active peer h)

  pub asked-lands :
      (actor_id : DocumentActorId) (peers : List PeerId) (doc_id : DocumentId) (peer_id : PeerId)
      (task_id : IoTaskId) (ps : Policies)
      → contains peers peer_id ≡ true
      → Active actor_id peers ps
      → let r : Check F × Policies = check share actor_id doc_id peer_id task_id ps in
        IsTakenUp (actor_id, peer_id) task_id r × Active actor_id peers r.1
  unfolding check
  asked-lands actor_id peers doc_id peer_id task_id ps known active = (
    elim (Option-cases (get (actor_id, peer_id) ps)) [
      | inl absent ↦ ground (arith, absent, active peer_id known)
      | inr (slot, there) ↦
          rw there (check_slot-IsTakenUp F (share doc_id peer_id) actor_id peer_id task_id slot ps)
    ],
    λ peer h.
        check_slot-Grows F (share doc_id peer_id) actor_id peer_id task_id
          (get (actor_id, peer_id) ps) ps (actor_id, peer) (active peer h),
  )
