-- ===== src/Runtime/DocActor/Pairs.antt =====
-- The pairs that the sharing decisions keep: samod/src/io_loop/share_policy.rs.
use samod.Prelude.{
  true, false, not, Option, none, some, List, [], ◌∷◌, ◌==◌, ◌≡◌, subst, inl, inr, arith, nat_eq,
  string_eq, pair_eq, option_beq, Bool-cases, Option-cases, if_both,
}
use samod.Prelude.Lists.{contains}
use samod.Prelude.Map.{get, insert, contains_key, retain, get-insert, get-insert_same, get-retain}
use samod.Network.{DocumentActorId, IoTaskId, PeerId}
use samod.Share.{ShareConfig, config_eq}
use samod.Runtime.Task.{ActorTask}
use samod.Runtime.Policies.{
  Subscription, Pair, Policies, PolicyEvent, set_peers, activate, activate_all, is_kept, check_slot,
  check_known, event_for, decide, decision_of,
}

-- Every pair that was there is there still.
abbrev pub Grows : Policies → Policies → Type 0
Grows ps ps' = (pair : Pair) → contains_key pair ps ≡ true → contains_key pair ps' ≡ true

insert-Grows :
    (pair : Pair) (slot : Option Subscription) (ps : Policies) → Grows ps (insert pair slot ps)
insert-Grows pair slot ps other h = elim (Bool-cases (pair == other)) [
  | inl same ↦ ground (arith, same, get-insert pair other slot ps)
  | inr differs ↦ ground (arith, differs, h, get-insert pair other slot ps)
]

activate-Grows : (pair : Pair) (ps : Policies) → Grows ps (activate pair ps)
activate-Grows pair ps other h = elim (Option-cases (get pair ps)) [
  | inl absent ↦ rw (absent, activate) (insert-Grows pair none ps other h)
  | inr (slot, there) ↦ rw (there, activate) h
]

activate_all-Grows :
    (actor_id : DocumentActorId) (peers : List PeerId) (ps : Policies)
    → Grows ps (activate_all actor_id peers ps)
activate_all-Grows actor_id [] ps other h = h
activate_all-Grows actor_id (peer ∷ peers) ps other h =
    activate_all-Grows actor_id peers (activate (actor_id, peer) ps) other
      (activate-Grows (actor_id, peer) ps other h)

activate_there : (pair : Pair) (ps : Policies) → contains_key pair (activate pair ps) ≡ true
activate_there pair ps = elim (Option-cases (get pair ps)) [
  | inl absent ↦ rw (absent, activate) (ground (arith, get-insert_same pair none ps))
  | inr (slot, there) ↦ rw (there, activate) (ground (arith, there))
]

-- The pairs of the actor with these peers are there.
abbrev pub Active : DocumentActorId → List PeerId → Policies → Type 0
Active actor_id peers ps =
    (peer : PeerId) → contains peers peer ≡ true → contains_key (actor_id, peer) ps ≡ true

pub activate_all-Active :
    (actor_id : DocumentActorId) (peers : List PeerId) (ps : Policies)
    → Active actor_id peers (activate_all actor_id peers ps)
activate_all-Active actor_id [] ps peer h = ground (arith, h)
activate_all-Active actor_id (first ∷ peers) ps peer h = elim (Bool-cases (first == peer)) [
  | inl same ↦
      activate_all-Grows actor_id peers (activate (actor_id, first) ps) (actor_id, peer)
        (subst (λ p. contains_key (actor_id, p) (activate (actor_id, first) ps) ≡ true)
          ((string_eq.same_iff first peer).0 same) (activate_there (actor_id, first) ps))
  | inr differs ↦
      activate_all-Active actor_id peers (activate (actor_id, first) ps) peer
        (ground (arith, h, differs))
]

-- The peers of another actor leave this one's pairs alone.
pub set_peers-kept :
    (actor_id other : DocumentActorId) (peers : List PeerId) (ps : Policies) (peer : PeerId)
    → (actor_id == other) ≡ false
    → contains_key (actor_id, peer) ps ≡ true
    → contains_key (actor_id, peer) (set_peers other peers ps) ≡ true
unfolding set_peers
set_peers-kept actor_id other peers ps peer differs h =
    activate_all-Grows other peers (retain (is_kept other peers) ps) (actor_id, peer)
      (ground (arith, h, differs, get-retain (is_kept other peers) (actor_id, peer) ps))

module _ (F : Type 0) where
  pub check_slot-Grows :
      (decisions : List ShareConfig) (actor_id : DocumentActorId) (peer_id : PeerId)
      (task_id : IoTaskId) (slot : Option (Option Subscription)) (ps : Policies)
      → Grows ps (check_slot {F = F} decisions actor_id peer_id task_id slot ps).1
  check_slot-Grows decisions actor_id peer_id task_id none ps = λ pair h. h
  check_slot-Grows decisions actor_id peer_id task_id (some none) ps =
      insert-Grows (actor_id, peer_id) _ ps
  check_slot-Grows decisions actor_id peer_id task_id (some (some s)) ps = known s.latest
    where
      known :
          (latest : Option ShareConfig)
          → Grows ps (check_known {F = F} (actor_id, peer_id) task_id s latest ps).1
      known none = insert-Grows (actor_id, peer_id) _ ps
      known (some config) = λ pair h. h

  decide-Grows :
      (pair : Pair) (s : Subscription) (decision : Option ShareConfig) (ps : Policies)
      → Grows ps (decide {F = F} pair s decision ps).1
  decide-Grows pair s none ps other h = h
  decide-Grows pair s (some config) ps other h =
      if_both (λ (r : List (ActorTask F) × Policies). contains_key other r.1 ≡ true)
        (option_beq s.latest (some config)) (insert-Grows pair _ ps other h)
        (insert-Grows pair _ ps other h)

  pub event_for-Grows :
      (event : PolicyEvent) (slot : Option (Option Subscription)) (ps : Policies)
      → Grows ps (event_for {F = F} event slot ps).1
  event_for-Grows event none ps other h = h
  event_for-Grows event (some none) ps other h = h
  event_for-Grows event (some (some s)) ps other h =
      if_both (λ (r : List (ActorTask F) × Policies). contains_key other r.1 ≡ true)
        (not (s.id == event.subscription_id)) h
        (decide-Grows (event.actor_id, event.peer_id) s (decision_of s.latest event.config) ps other
          h)
