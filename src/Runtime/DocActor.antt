-- ===== src/Runtime/DocActor.antt =====
-- A document actor with its channels: samod/src/doc_actor_inner.rs, and the tasks of the io loop
-- that concern sharing, samod/src/io_loop.rs. A channel is open or closed for the whole of a call;
-- a listener is a number. The events for an observer and the conversion of peer states are left out.
pub mod Pairs
pub mod Steps
pub mod Sends
pub mod Landing
use samod.Prelude.{
  ℕ, Bool, true, false, not, ◌&&◌, ◌||◌, Option, none, some, List, [], ◌∷◌, ◌++◌, ◌==◌, map, nat_eq,
  string_eq, String, if◌then◌else◌,
}
use samod.Prelude.Lists.{all, contains, set_insert, is_empty, filter}
use samod.Prelude.Map.{Map, get}
use samod.Prelude.Panic.{◌>>=◌}
use samod.Prelude.Result.{Result, ok, err}
use samod.Network.{
  Bytes, ChangeHash, ConnectionId, DialerId, DocumentActorId, DocumentId, PeerId, UnixTimestamp,
  PeerDocState,
}
use samod.Share.{ShareConfig}
use samod.Messages.{DocToHubMsg}
use samod.Document.Io.{IoTask, DocumentIoTask}
use samod.Document.Library.{Automerge}
use samod.Document.Results.{DocActorResult}
use samod.Document.Actor
use samod.Document.Actor.{DocumentActor, Turn}
use samod.Document.Actor.Input.{
  handle_message as message_actor, handle_io_complete, with_document as modify, broadcast_message,
}
use samod.Document.Actor.Checks.{peer_ids}
use samod.Runtime.Task.{ActorTask, handle_message, io_complete}
use samod.Runtime.Policies.{Policies, Check, pending, set_peers, clear, check}

-- `IoLoopTask`; a connection to drive is its identifier.
pub data LoopTask : Type 0 where
  drive_connection : ConnectionId → LoopTask
  storage : DocumentId → IoTask DocumentIoTask → DocumentActorId → LoopTask
  establish_transport : DialerId → String → LoopTask
  document_peers_changed : DocumentActorId → List PeerId → LoopTask
  stop_share_policies : LoopTask
  tick : LoopTask

-- What goes out on a channel.
pub data Sent : Type 0 where
  to_io : LoopTask → Sent
  to_core : DocumentActorId → DocToHubMsg → Sent
  to_ephemera : ℕ → Bytes → Sent
  to_changes : ℕ → List ChangeHash → Sent
  to_peer_states : ℕ → Map ConnectionId PeerDocState → Sent

pub record Channels : Type 0 where
  pub io : Bool
  pub core : Bool
  pub listens : ℕ → Bool

pub record DocActorInner (am : Automerge) : Type 0 where
  pub document_id : DocumentId
  pub actor_id : DocumentActorId
  pub ephemera_listeners : List ℕ
  pub change_listeners : List ℕ
  pub peer_state_change_listeners : List ℕ
  pub actor : DocumentActor am
  pub last_observed_peers : List PeerId

-- `HashSet`'s equality, and the set of the items of a list.
abbrev pub set_beq : List PeerId → List PeerId → Bool
set_beq xs ys = all (contains ys) xs && all (contains xs) ys

abbrev pub to_set : List PeerId → List PeerId
to_set [] = []
to_set (x ∷ xs) = set_insert x (to_set xs)

-- To each listener that still listens, each item.
abbrev pub send_each {ℓ} : {A : Type ℓ} → (ℕ → A → Sent) → List A → List ℕ → List Sent
send_each send items [] = []
send_each send items (l ∷ ls) = map (send l) items ++ send_each send items ls

-- A listener that no longer listens is dropped when there is something for it.
abbrev pub open_listeners : Channels → Bool → List ℕ → List ℕ
open_listeners ch true listeners = listeners
open_listeners ch false listeners = filter ch.listens listeners

abbrev pub announce : Channels → DocumentActorId → Option (List PeerId) → List Sent
announce ch actor_id none = []
announce ch actor_id (some peers) =
    if ch.io then to_io (document_peers_changed actor_id peers) ∷ [] else []

abbrev pub send_tasks : DocumentId → DocumentActorId → List (IoTask DocumentIoTask) → List Sent
send_tasks doc_id actor_id tasks = map (λ task. to_io (storage doc_id task actor_id)) tasks

module _ {am : Automerge} where
  -- The peers of the connections, by `conn_peer_id` of each.
  abbrev pub connected_peers : Bool → DocumentActor am → List PeerId
  connected_peers stopped a = if stopped then [] else to_set (peer_ids a.peer_connections)

  abbrev pub take_peers :
      Bool → List PeerId → DocActorInner am → Option (List PeerId) × DocActorInner am
  take_peers true peers inner = (none, inner)
  take_peers false peers inner = (some peers, record inner { last_observed_peers = peers })

  unfoldable pub connected_peers_changed :
      Bool → DocActorInner am → Option (List PeerId) × DocActorInner am
  connected_peers_changed stopped inner =
      let peers = connected_peers stopped inner.actor in
      take_peers (set_beq peers inner.last_observed_peers) peers inner

  -- The listeners are told, and those that no longer listen dropped.
  abbrev pub tell_listeners :
      Channels → DocActorResult → DocActorInner am → List Sent × DocActorInner am
  tell_listeners ch results inner =
      let ephemera =
        open_listeners ch (is_empty results.ephemeral_messages) inner.ephemera_listeners in
      let changes = open_listeners ch (is_empty results.change_events) inner.change_listeners in
      let states =
        open_listeners ch (is_empty results.peer_state_changes) inner.peer_state_change_listeners in
      (
        send_each to_ephemera results.ephemeral_messages ephemera
            ++ (send_each to_changes results.change_events changes
                ++ (if is_empty results.peer_state_changes
                    then []
                    else send_each to_peer_states (results.peer_state_changes ∷ []) states)),
        record inner {
          ephemera_listeners = ephemera;
          change_listeners = changes;
          peer_state_change_listeners = states;
        },
      )

  abbrev pub after : List Sent → List Sent × DocActorInner am → List Sent × DocActorInner am
  after sent (more, inner) = (sent ++ more, inner)

  -- A closed channel ends the call at the first message for it.
  abbrev pub send_messages :
      Channels → DocActorResult → DocActorInner am → List Sent × DocActorInner am
  send_messages ch results inner =
      if not ch.core && not (is_empty results.outgoing_messages)
      then ([], inner)
      else after (map (to_core inner.actor_id) results.outgoing_messages)
          (tell_listeners ch results inner)

  abbrev pub send_results :
      Channels → DocActorResult → DocActorInner am → List Sent × DocActorInner am
  send_results ch results inner =
      if not ch.io && not (is_empty results.io_tasks)
      then ([], inner)
      else after (send_tasks inner.document_id inner.actor_id results.io_tasks)
          (send_messages ch results inner)

  unfoldable pub handle_results :
      Channels → DocActorResult → DocActorInner am → List Sent × DocActorInner am
  handle_results ch results inner =
      let (changed, inner') = connected_peers_changed results.stopped inner in
      after (announce ch inner.actor_id changed) (send_results ch results inner')

  abbrev pub put_actor : DocActorInner am → DocumentActor am → DocActorInner am
  put_actor inner a = record inner { actor = a }

  -- What a call of the actor gives is handled; `none` is a panic.
  abbrev pub with_turn :
      Channels → DocActorInner am → Option (Turn am) → Option (List Sent × DocActorInner am)
  with_turn ch inner turn =
      turn >>= λ (a, results). some (handle_results ch results (put_actor inner a))

  unfoldable pub handle_task :
      Channels
      → UnixTimestamp
      → ℕ
      → ActorTask (DocActorInner am → List Sent × DocActorInner am)
      → DocActorInner am
      → Option (List Sent × DocActorInner am)
  handle_task ch now n (handle_message msg) inner =
      with_turn ch inner (message_actor now msg n inner.actor)
  handle_task ch now n (io_complete result) inner =
      with_turn ch inner (handle_io_complete now result n inner.actor)
  handle_task ch now n (ActorTask.with_document f) inner = some (f inner)

  -- A document that is not ready is a panic here.
  abbrev pub with_document :
      Channels
      → UnixTimestamp
      → ℕ
      → (am.Doc → am.Doc)
      → DocActorInner am
      → Option (List Sent × DocActorInner am)
  with_document ch now n f inner = elim (modify now f n inner.actor) [
    | ok turn ↦ with_turn ch inner turn
    | err error ↦ none
  ]

  abbrev pub broadcast_ephemeral_message :
      Channels → ℕ → Bytes → DocActorInner am → List Sent × DocActorInner am
  broadcast_ephemeral_message ch n msg inner =
      handle_results ch (broadcast_message msg n inner.actor) inner

  abbrev pub create_ephemera_listener : ℕ → DocActorInner am → DocActorInner am
  create_ephemera_listener l inner = record inner {
    ephemera_listeners = inner.ephemera_listeners ++ l ∷ [];
  }

  abbrev pub create_change_listener : ℕ → DocActorInner am → DocActorInner am
  create_change_listener l inner = record inner {
    change_listeners = inner.change_listeners ++ l ∷ [];
  }

  -- `peers`
  abbrev pub listen_to_peers :
      ℕ → DocActorInner am → Map ConnectionId PeerDocState × DocActorInner am
  listen_to_peers l inner = (
    Actor.peers inner.actor,
    record inner { peer_state_change_listeners = inner.peer_state_change_listeners ++ l ∷ [] },
  )

  abbrev pub is_stopped : DocActorInner am → Bool
  is_stopped inner = Actor.is_stopped inner.actor

  unfoldable pub new_inner : DocumentId → DocumentActorId → DocumentActor am → DocActorInner am
  new_inner document_id actor_id a = record {
    document_id = document_id;
    actor_id = actor_id;
    ephemera_listeners = [];
    change_listeners = [];
    peer_state_change_listeners = [];
    actor = a;
    last_observed_peers = [];
  }

-- The arms of `io_loop` that concern sharing; `stopping` is the repository's.
module _ {F : Type 0} (share : DocumentId → PeerId → List ShareConfig) where
  abbrev pub ask :
      Bool → DocumentId → IoTask DocumentIoTask → DocumentActorId → Policies → Check F × Policies
  ask stopping doc_id task actor_id ps = elim task.action [
    | DocumentIoTask.storage action ↦ (pending, ps)
    | DocumentIoTask.check_share_policy peer_id ↦ elim stopping [
      | true ↦ (pending, ps)
      | false ↦ check share actor_id doc_id peer_id task.task_id ps
    ]
  ]

  unfoldable pub share_task : Bool → LoopTask → Policies → Check F × Policies
  share_task stopping (storage doc_id task actor_id) ps = ask stopping doc_id task actor_id ps
  share_task stopping (document_peers_changed actor_id peers) ps =
      (pending, set_peers actor_id peers ps)
  share_task stopping stop_share_policies ps = (pending, clear ps)
  share_task stopping _ ps = (pending, ps)
