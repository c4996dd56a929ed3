-- ===== src/Runtime/DocActor/Sends.antt =====
-- What a document actor's messages announce and ask, in their order:
-- samod/src/doc_actor_inner.rs.
use samod.Prelude.{
  ℕ, Bool, true, false, not, ◌&&◌, Option, List, [], ◌∷◌, ◌==◌, ◌≡◌, refl, sym, ap, ◌∙◌, subst, inl,
  inr, arith, if◌then◌else◌, map, nat_eq, string_eq, pair_eq, Bool-cases, if_both,
}
use samod.Prelude.Lists.{all, contains, All, All-append, All-mono, contains-set_insert, is_empty}
use samod.Network.{DocumentActorId, DocumentId, PeerId}
use samod.Document.Io.{IoTask, DocumentIoTask}
use samod.Document.Library.{Automerge}
use samod.Document.Results.{DocActorResult}
use samod.Document.Actor.Asking.{AsksKnown-mono}
use samod.Document.Actor.Checks.{peer_ids, AsksKnown, AllKnown}
use samod.Runtime.DocActor.{
  document_peers_changed, Sent, to_io, to_core, to_ephemera, to_changes, to_peer_states, Channels,
  DocActorInner, set_beq, to_set, connected_peers, connected_peers_changed, announce, after,
  take_peers, open_listeners, send_tasks, send_each, tell_listeners, send_results, handle_results,
}
use samod.Runtime.DocActor.Steps.{announced, last_announced, Fits, Follows}

-- A message that announces no peers.
abbrev IsQuiet : DocumentActorId → List PeerId → Sent → Type 0
IsQuiet actor_id peers sent = Fits actor_id peers sent × (announced peers sent ≡ peers)

IsQuiet-Follows :
    (actor_id : DocumentActorId) (peers : List PeerId) (sent : List Sent)
    → All (IsQuiet actor_id peers) sent
    → Follows actor_id peers sent × (last_announced peers sent ≡ peers)
IsQuiet-Follows actor_id peers [] h = (tt, refl)
IsQuiet-Follows actor_id peers (x ∷ xs) ((fits, same), h) =
    let (follows, last) = IsQuiet-Follows actor_id peers xs h in
    (
      (fits, subst (λ ps. Follows actor_id ps xs) (sym same) follows),
      ap (λ ps. last_announced ps xs) same ∙ last,
    )

-- A property of messages that holds of whatever is sent on some channels.
module _ {κ} (P : Sent → Type κ) where
  map-All :
      {A : Type 0} (send : A → Sent) (items : List A)
      → ((a : A) → P (send a))
      → All P (map send items)
  map-All send [] f = tt
  map-All send (a ∷ items) f = (f a, map-All send items f)

  send_each-All :
      {A : Type 0} (send : ℕ → A → Sent) (items : List A) (listeners : List ℕ)
      → ((l : ℕ) (a : A) → P (send l a))
      → All P (send_each send items listeners)
  send_each-All send items [] f = tt
  send_each-All send items (l ∷ ls) f =
      All-append P (map (send l) items) _ (map-All (send l) items (f l))
        (send_each-All send items ls f)

send_tasks-IsQuiet :
    (actor_id : DocumentActorId) (peers : List PeerId) (doc_id : DocumentId)
    (tasks : List (IoTask DocumentIoTask))
    → All (AsksKnown peers) tasks
    → All (IsQuiet actor_id peers) (send_tasks doc_id actor_id tasks)
send_tasks-IsQuiet actor_id peers doc_id [] h = tt
send_tasks-IsQuiet actor_id peers doc_id (task ∷ tasks) (known, h) =
    (((refl, known), refl), send_tasks-IsQuiet actor_id peers doc_id tasks h)

contains-to_set :
    (xs : List PeerId) (peer : PeerId) → contains xs peer ≡ true → contains (to_set xs) peer ≡ true
contains-to_set [] peer h = h
contains-to_set (x ∷ xs) peer h = elim (Bool-cases (x == peer)) [
  | inl same ↦ ground (arith, same, contains-set_insert x peer (to_set xs))
  | inr differs ↦
      ground (arith, h, differs, contains-set_insert x peer (to_set xs), contains-to_set xs peer)
]

all-contains :
    (ys xs : List PeerId) (peer : PeerId)
    → all (contains ys) xs ≡ true
    → contains xs peer ≡ true
    → contains ys peer ≡ true
all-contains ys [] peer a h = ground (arith, h)
all-contains ys (x ∷ xs) peer a h = elim (Bool-cases (x == peer)) [
  | inl same ↦
      subst (λ p. contains ys p ≡ true) ((string_eq.same_iff x peer).0 same) (ground (arith, a))
  | inr differs ↦ all-contains ys xs peer (ground (arith, a)) (ground (arith, h, differs))
]

-- The messages of a call follow what has been announced, which they leave to be what was observed.
abbrev IsAnnounced :
    {am : Automerge} → DocumentActorId → List PeerId → List Sent × DocActorInner am → Type 0
IsAnnounced actor_id peers (sent, inner) =
    Follows actor_id peers sent
    × (last_announced peers sent ≡ inner.last_observed_peers)
    × (inner.actor_id ≡ actor_id)

module _ {am : Automerge} (ch : Channels) (results : DocActorResult) where
  tell_listeners-IsQuiet :
      (peers : List PeerId) (inner : DocActorInner am)
      → All (IsQuiet inner.actor_id peers) (tell_listeners ch results inner).0
  tell_listeners-IsQuiet peers inner =
      All-append P ephemera _
        (send_each-All P to_ephemera results.ephemeral_messages _ (λ l a. (tt, refl)))
        (All-append P changes _
          (send_each-All P to_changes results.change_events _ (λ l a. (tt, refl)))
          (states (is_empty results.peer_state_changes) (
            open_listeners ch (is_empty results.peer_state_changes)
              inner.peer_state_change_listeners)))
    where
      P : Sent → Type 0
      P = IsQuiet inner.actor_id peers

      ephemera : List Sent
      ephemera =
          send_each to_ephemera results.ephemeral_messages
            (open_listeners ch (is_empty results.ephemeral_messages) inner.ephemera_listeners)

      changes : List Sent
      changes =
          send_each to_changes results.change_events
            (open_listeners ch (is_empty results.change_events) inner.change_listeners)

      states :
          (nothing : Bool) (listeners : List ℕ)
          → All P (
              if nothing
              then []
              else send_each to_peer_states (results.peer_state_changes ∷ []) listeners)
      states true listeners = tt
      states false listeners =
          send_each-All P to_peer_states (results.peer_state_changes ∷ []) listeners
            (λ l a. (tt, refl))

  send_results-IsQuiet :
      (inner : DocActorInner am)
      → AllKnown inner.last_observed_peers results
      → let (sent, inner') = send_results ch results inner in
        All (IsQuiet inner.actor_id inner.last_observed_peers) sent
        × (inner'.last_observed_peers ≡ inner.last_observed_peers)
        × (inner'.actor_id ≡ inner.actor_id)
  send_results-IsQuiet inner known =
      if_both Q (not ch.io && not (is_empty results.io_tasks)) (tt, refl, refl)
        (if_both (λ r. Q (after (send_tasks inner.document_id inner.actor_id results.io_tasks) r))
          (not ch.core && not (is_empty results.outgoing_messages))
          (All-append P _ _ tasks tt, refl, refl)
          (
            All-append P _ _ tasks (
                All-append P _ _ (map-All P (to_core inner.actor_id) _ (λ m. (tt, refl)))
                  (tell_listeners-IsQuiet peers inner)),
            refl,
            refl,
          ))
    where
      peers : List PeerId
      peers = inner.last_observed_peers

      P : Sent → Type 0
      P = IsQuiet inner.actor_id peers

      Q : List Sent × DocActorInner am → Type 0
      Q r = All P r.0 × (r.1.last_observed_peers ≡ peers) × (r.1.actor_id ≡ inner.actor_id)

      tasks : All P (send_tasks inner.document_id inner.actor_id results.io_tasks)
      tasks = send_tasks-IsQuiet inner.actor_id peers inner.document_id results.io_tasks known

  send_results-IsAnnounced :
      (inner : DocActorInner am)
      → AllKnown inner.last_observed_peers results
      → IsAnnounced inner.actor_id inner.last_observed_peers (send_results ch results inner)
  send_results-IsAnnounced inner known =
      let (quiet, same, own) = send_results-IsQuiet inner known in
      let (follows, last) =
        IsQuiet-Follows inner.actor_id inner.last_observed_peers (send_results ch results inner).0
          quiet in
      (follows, last ∙ sym same, own)

  changed-IsAnnounced :
      (inner : DocActorInner am) (peers : List PeerId) (same : Bool)
      → ch.io ≡ true
      → AllKnown peers results
      → set_beq peers inner.last_observed_peers ≡ same
      → let r : Option (List PeerId) × DocActorInner am = take_peers same peers inner in
        IsAnnounced inner.actor_id inner.last_observed_peers
          (after (announce ch inner.actor_id r.0) (send_results ch results r.1))
  changed-IsAnnounced inner peers true io known h = send_results-IsAnnounced inner (
      All-mono (AsksKnown peers) (AsksKnown inner.last_observed_peers)
        (AsksKnown-mono peers inner.last_observed_peers
          (λ peer. all-contains inner.last_observed_peers peers peer (ground (arith, h))))
        results.io_tasks known)
  changed-IsAnnounced inner peers false io known h =
      let (follows, last, own) =
        send_results-IsAnnounced (record inner { last_observed_peers = peers }) known in
      subst
        (λ b. IsAnnounced inner.actor_id inner.last_observed_peers (
          after (if b then to_io (document_peers_changed inner.actor_id peers) ∷ [] else [])
            (send_results ch results (record inner { last_observed_peers = peers }))))
        (sym io) ((refl, follows), last, own)

  pub handle_results-IsAnnounced :
      (inner : DocActorInner am)
      → ch.io ≡ true
      → results.stopped ≡ false
      → AllKnown (peer_ids inner.actor.peer_connections) results
      → IsAnnounced inner.actor_id inner.last_observed_peers (handle_results ch results inner)
  unfolding handle_results connected_peers_changed
  handle_results-IsAnnounced inner io running known =
      changed-IsAnnounced inner (connected_peers results.stopped inner.actor) _ io
        (subst (λ b. AllKnown (connected_peers b inner.actor) results) (sym running)
          (All-mono (AsksKnown ids) (AsksKnown (to_set ids))
            (AsksKnown-mono ids (to_set ids) (contains-to_set ids)) results.io_tasks known))
        refl
    where
      ids : List PeerId
      ids = peer_ids inner.actor.peer_connections
