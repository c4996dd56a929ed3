-- ===== src/Hub/State/Delivery.antt =====
-- Where a message for a document goes: `handle_doc_message` and `spawn_actor` of
-- samod-core/src/actors/hub/state.rs.
use samod.Prelude.{
  ◌≡◌, refl, ap, ◌∙◌, ◌⊎◌, inl, inr, true, Option, none, some, List, [], ◌∷◌, ◌++◌, arith, nat_eq,
  string_eq, ◌==◌, Bool-cases, Option-cases,
}
use samod.Prelude.Lists.{contains}
use samod.Prelude.Map.{Map, keys, get, get-absent, get-insert_same}
use samod.Prelude.Panic.{◌>>=◌}
use samod.Network.{ConnectionId, DocumentId, PeerId, UnixTimestamp}
use samod.Messages.{DocMessage, handle_doc_message}
use samod.Hub.Connection.{Connection, remote_peer_id}
use samod.Hub.Results.{HubResults, SpawnArgs, send_to_doc_actor}
use samod.Hub.Searches.{ActorInfo}
use samod.Hub.State.{
  State, Turn, add_document_actor, established_peers, find_actor_for_document, peers_among, peer_at,
}
use samod.Hub.State.Peers.{add_to_all-Talks, peers_among-Talks}
use samod.Hub.State.Documents.{deliver, spawn_actor, spawned, next_actor, attach, without_message}

get-peers_among :
    (ids : List ConnectionId) (id : ConnectionId) (p : PeerId) (conns : Map ConnectionId Connection)
    → contains ids id ≡ true
    → peer_at (get id conns) ≡ some p
    → get id (peers_among ids conns) ≡ some p
unfolding peers_among get
get-peers_among [] id p conns h e = ground (arith, h)
get-peers_among (i ∷ ids) id p conns h e = elim (Bool-cases (i == id)) [
  | inl same ↦
      (let here = ap (λ j. peer_at (get j conns)) ((nat_eq.same_iff i id).0 same) ∙ e in
        rw (peers_among, here) (ground (arith, same)))
  | inr other ↦
      (let later = get-peers_among ids id p conns (ground (arith, h, other)) e in
        elim (Option-cases (peer_at (get i conns))) [
          | inl none_there ↦ rw (peers_among, none_there) later
          | inr (q, there) ↦ rw (peers_among, there) (ground (arith, other, later))
        ])
]

get-without_message :
    (peers : Map ConnectionId PeerId) (id : ConnectionId) (p : PeerId)
    → get id peers ≡ some p
    → get id (without_message peers) ≡ some (p, none)
unfolding get
get-without_message [] id p e = ground (arith, e)
get-without_message ((i, q) ∷ peers) id p e = elim (Bool-cases (i == id)) [
  | inl h ↦ ground (arith, h, e)
  | inr h ↦ ground (arith, h, e, get-without_message peers id p (ground (arith, h, e)))
]

keys-contain :
    (id : ConnectionId) (conn : Connection) (conns : Map ConnectionId Connection)
    → get id conns ≡ some conn
    → contains (keys conns) id ≡ true
keys-contain id conn conns e = elim (Bool-cases (contains (keys conns) id)) [
  | inl h ↦ h
  | inr h ↦ ground (arith, e, get-absent id conns h)
]

get-attach :
    (id : ConnectionId) (msg : DocMessage) (p : PeerId)
    (m : Map ConnectionId (PeerId × Option DocMessage))
    → get id m ≡ some (p, none)
    → get id (attach (some (id, msg)) m) ≡ some (p, some msg)
get-attach id msg p m e = rw (attach, e) (get-insert_same id (p, some msg) m)

-- What became of the message: the actor of the document has it, or a new actor starts with it.
abbrev pub Delivered :
    {A : Type 0}
    → UnixTimestamp
    → ConnectionId
    → PeerId
    → DocumentId
    → DocMessage
    → Turn A
    → Turn A
    → Type 0
Delivered {A = A} now id p d msg (s, out) (s', out') =
    ((info : ActorInfo) × (find_actor_for_document d s ≡ some info)
      × (out'.spawn_actors ≡ out.spawn_actors)
      × (out'.actor_messages
          ≡ out.actor_messages ++ (info.actor_id, handle_doc_message id msg now) ∷ []))
    ⊎ ((find_actor_for_document d s ≡ none)
        × ((args : SpawnArgs A) × (out'.spawn_actors ≡ out.spawn_actors ++ args ∷ [])
            × (out'.actor_messages ≡ out.actor_messages)
            × (args.document_id ≡ d)
            × (get id args.initial_connections ≡ some (p, some msg))))

module _ {A : Type 0} (now : UnixTimestamp) (id : ConnectionId) (p : PeerId) (d : DocumentId)
    (msg : DocMessage) (s : State) (out : HubResults A) where
  deliver_new :
      (conn : Connection)
      → find_actor_for_document d s ≡ none
      → get id s.connections ≡ some conn
      → remote_peer_id conn ≡ some p
      → (r : Turn A) × ((spawn_actor {A = A} d none (some (id, msg)) (s, out) >>= λ r. some r.0)
          ≡ some r)
        × Delivered now id p d msg (s, out) r
  unfolding spawn_actor add_document_actor
  deliver_new conn absent e talks =
      let s' = add_document_actor s.counters.actor d s in
      let peers = established_peers s' in
      let (conns, f, same) =
        add_to_all-Talks d (keys peers) s.connections
          (peers_among-Talks (keys s.connections) s.connections) in
      let ((s'', out''), actor_id) =
        next_actor (spawned {A = A} d none (some (id, msg)) peers conns (s', out)) in
      let there =
        get-peers_among (keys s.connections) id p s.connections
          (keys-contain id conn s.connections e) (ap peer_at e ∙ talks) in
      (
        (s'', out''),
        rw f refl,
        inr (
          absent,
          (
            _,
            refl,
            refl,
            refl,
            get-attach id msg p (without_message peers) (get-without_message peers id p there),
          ),
        ),
      )

  -- A message for the local peer that arrives on an established connection is handled without a
  -- panic: either its document has an actor, and that actor is sent the message and none is spawned,
  -- or it has none, and one actor is spawned for the document, which starts with the message as
  -- coming from that connection, and no actor is sent a message.
  pub deliver-Delivered :
      (conn : Connection)
      → get id s.connections ≡ some conn
      → remote_peer_id conn ≡ some p
      → (turn : Turn A) × (deliver now id s.peer_id d msg (s, out) ≡ some turn)
        × Delivered now id p d msg (s, out) turn
  unfolding deliver
  deliver-Delivered conn e talks =
      let ours = (string_eq.same_iff s.peer_id s.peer_id).1 refl in
      elim (Option-cases (find_actor_for_document d s)) [
        | inl f ↦
            (let (turn, g, h) = deliver_new conn f e talks in (turn, rw (deliver, ours, f) g, h))
        | inr (info, f) ↦ (
          (s, send_to_doc_actor out info.actor_id (handle_doc_message id msg now)),
          rw (deliver, ours, f) refl,
          inl (info, f, refl, refl),
        )
      ]
