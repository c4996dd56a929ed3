-- ===== src/Hub/State/Peers.antt =====
-- What the operations of samod-core/src/actors/hub/state.rs on documents leave alone: which
-- connections there are, and with whom they are established.
use samod.Prelude.{
  ◌≡◌, ◌⊎◌, subst, refl, sym, ap, ◌∙◌, inl, inr, Option, none, some, List, [], ◌∷◌, arith, nat_eq,
  Option-cases,
}
use samod.Prelude.Lists.{All, All-append}
use samod.Prelude.Map.{Map, keys, get, insert, get-insert}
use samod.Prelude.Panic.{for_each}
use samod.Network.{ConnectionId, DocumentActorId, DocumentId, PeerId}
use samod.Hub.Connection.{
  Connection, ConnectionPhase, waiting_for_peer, waiting_for_join, established, closed,
  EstablishedConnection, peer_of, remote_peer_id, add_document,
}
use samod.Hub.State.{State, add_document_to_connection, peers_among, peer_at}
use samod.Hub.State.Subscriptions.{
  add_document_subscription, ToConnect, subscribe, subscribe_phase, subscribe_connection,
  subscribe_all, add_found, ensure_connections,
}

-- The connection at an identifier, as far as its peer goes.
abbrev pub tag : Option Connection → Option (Option PeerId)
tag none = none
tag (some conn) = some (remote_peer_id conn)

abbrev pub tag_at : ConnectionId → Map ConnectionId Connection → Option (Option PeerId)
tag_at id conns = tag (get id conns)

abbrev pub SamePeers : Map ConnectionId Connection → Map ConnectionId Connection → Type 0
SamePeers conns conns' = (id : ConnectionId) → tag_at id conns' ≡ tag_at id conns

abbrev pub Talks : Map ConnectionId Connection → ConnectionId → Type 0
Talks conns id = (p : PeerId) × (tag_at id conns ≡ some (some p))

pub insert-SamePeers :
    (id : ConnectionId) (conn : Connection) (conns : Map ConnectionId Connection)
    → tag_at id conns ≡ some (remote_peer_id conn)
    → SamePeers conns (insert id conn conns)
insert-SamePeers id conn conns e j =
    ground (arith, get-insert id j conn conns, nat_eq.same_iff id j)

pub SamePeers-trans :
    (a b c : Map ConnectionId Connection) → SamePeers a b → SamePeers b c → SamePeers a c
SamePeers-trans a b c h k id = k id ∙ h id

pub SamePeers-Talks :
    (a b : Map ConnectionId Connection) (id : ConnectionId)
    → SamePeers a b
    → Talks a id
    → Talks b id
SamePeers-Talks a b id h t = (t.0, h id ∙ t.1)

pub SamePeers-All :
    (a b : Map ConnectionId Connection) (ids : List ConnectionId)
    → SamePeers a b
    → All (Talks a) ids
    → All (Talks b) ids
SamePeers-All a b [] h t = tt
SamePeers-All a b (id ∷ ids) h t = (SamePeers-Talks a b id h t.0, SamePeers-All a b ids h t.1)

add_document-Talks :
    (conn : Connection) (d : DocumentId) (p : PeerId) (phase : ConnectionPhase)
    → conn.phase ≡ phase
    → peer_of phase ≡ some p
    → (conn' : Connection) × (add_document conn d ≡ some conn') × (remote_peer_id conn' ≡ some p)
unfolding add_document
add_document-Talks conn d p (established e) h k =
    (record conn { phase = established (add_document_subscription e d) }, rw h refl, k)
add_document-Talks conn d p _ h k = ground arith

tag-Talks :
    (o : Option Connection) (p : PeerId)
    → tag o ≡ some (some p)
    → (conn : Connection) × (o ≡ some conn) × (remote_peer_id conn ≡ some p)
tag-Talks none p h = ground arith
tag-Talks (some conn) p h = (conn, refl, ground (arith, h))

-- A connection that talks takes a document.
pub add_document-at :
    (d : DocumentId) (id : ConnectionId) (conns : Map ConnectionId Connection)
    → Talks conns id
    → (conn conn' : Connection) × (get id conns ≡ some conn)
      × (add_document conn d ≡ some conn')
      × SamePeers conns (insert id conn' conns)
add_document-at d id conns (p, t) =
    let (conn, e, k) = tag-Talks (get id conns) p t in
    let (conn', f, k') = add_document-Talks conn d p conn.phase refl k in
    (conn, conn', e, f, insert-SamePeers id conn' conns (t ∙ ap some (sym k')))

add_document_to_connection-Talks :
    (d : DocumentId) (id : ConnectionId) (conns : Map ConnectionId Connection)
    → Talks conns id
    → (conns' : Map ConnectionId Connection) × (add_document_to_connection d id conns ≡ some conns')
      × SamePeers conns conns'
unfolding add_document_to_connection
add_document_to_connection-Talks d id conns t =
    let (conn, conn', e, f, same) = add_document-at d id conns t in
    (insert id conn' conns, ground (arith, e, f), same)

pub add_to_all-Talks :
    (d : DocumentId) (ids : List ConnectionId) (conns : Map ConnectionId Connection)
    → All (Talks conns) ids
    → (conns' : Map ConnectionId Connection) × (for_each (add_document_to_connection d) ids conns
        ≡ some conns')
      × SamePeers conns conns'
add_to_all-Talks d [] conns t = (conns, refl, λ id. refl)
add_to_all-Talks d (id ∷ ids) conns t =
    let (conns₁, e, same) = add_document_to_connection-Talks d id conns t.0 in
    let (conns₂, f, same') =
      add_to_all-Talks d ids conns₁ (SamePeers-All conns conns₁ ids same t.1) in
    (conns₂, rw e f, SamePeers-trans conns conns₁ conns₂ same same')

peer_at-tag : (o : Option Connection) (p : PeerId) → peer_at o ≡ some p → tag o ≡ some (some p)
peer_at-tag none p h = ground arith
peer_at-tag (some conn) p h = ap some h

pub peers_among-Talks :
    (ids : List ConnectionId) (conns : Map ConnectionId Connection)
    → All (Talks conns) (keys (peers_among ids conns))
unfolding peers_among
peers_among-Talks [] conns = tt
peers_among-Talks (id ∷ ids) conns = elim (Option-cases (peer_at (get id conns))) [
  | inl e ↦ rw e (peers_among-Talks ids conns)
  | inr (p, e) ↦ rw e ((p, peer_at-tag (get id conns) p e), peers_among-Talks ids conns)
]

-- `ensure_connections`: its first loop finds connections that talk, and its second panics on none.
abbrev FoundAt : ConnectionId → ToConnect → Type 0
FoundAt id t = t.conn_id ≡ id

abbrev pub FoundTalks : Map ConnectionId Connection → ToConnect → Type 0
FoundTalks conns t = Talks conns t.conn_id

subscribe-FoundAt :
    (id : ConnectionId) (docs : Map DocumentId DocumentActorId) (e : EstablishedConnection)
    → ((subscribe id docs e).0.remote_peer_id ≡ e.remote_peer_id)
      × All (FoundAt id) (subscribe id docs e).1
unfolding subscribe
subscribe-FoundAt id [] e = (refl, tt)
subscribe-FoundAt id ((d, a) ∷ docs) e = elim (Option-cases (get d e.document_subscriptions)) [
  | inl h ↦
      (let (same, found) = subscribe-FoundAt id docs (add_document_subscription e d) in
        rw (subscribe, h) (same, (refl, found)))
  | inr (state, h) ↦ rw (subscribe, h) (subscribe-FoundAt id docs e)
]

FoundAt-Talks :
    (id : ConnectionId) (conns : Map ConnectionId Connection) (found : List ToConnect)
    → Talks conns id
    → All (FoundAt id) found
    → All (FoundTalks conns) found
FoundAt-Talks id conns [] t h = tt
FoundAt-Talks id conns (f ∷ found) t h =
    (subst (λ i. Talks conns i) (sym h.0) t, FoundAt-Talks id conns found t h.1)

FoundTalks-same :
    (a b : Map ConnectionId Connection) (found : List ToConnect)
    → SamePeers a b
    → All (FoundTalks a) found
    → All (FoundTalks b) found
FoundTalks-same a b [] h t = tt
FoundTalks-same a b (f ∷ found) h t =
    (SamePeers-Talks a b f.conn_id h t.0, FoundTalks-same a b found h t.1)

subscribe_phase-found :
    (id : ConnectionId) (docs : Map DocumentId DocumentActorId) (phase : ConnectionPhase)
    → (peer_of (subscribe_phase id docs phase).0 ≡ peer_of phase)
      × All (FoundAt id) (subscribe_phase id docs phase).1
      × (((subscribe_phase id docs phase).1 ≡ []) ⊎ ((p : PeerId) × (peer_of phase ≡ some p)))
subscribe_phase-found id docs (established e) =
    let (same, found) = subscribe-FoundAt id docs e in
    (ap some same, found, inr (e.remote_peer_id, refl))
subscribe_phase-found id docs waiting_for_peer = (refl, tt, inl refl)
subscribe_phase-found id docs waiting_for_join = (refl, tt, inl refl)
subscribe_phase-found id docs (closed reason) = (refl, tt, inl refl)

subscribe_connection-found :
    (id : ConnectionId) (docs : Map DocumentId DocumentActorId) (o : Option Connection)
    (conns : Map ConnectionId Connection)
    → get id conns ≡ o
    → SamePeers conns (subscribe_connection id docs o conns).0
      × All
          (FoundTalks (subscribe_connection id docs o conns).0)
          (subscribe_connection id docs o conns).1
subscribe_connection-found id docs none conns e = ((λ j. refl), tt)
subscribe_connection-found id docs (some conn) conns e =
    let (same, found, why) = subscribe_phase-found id docs conn.phase in
    let conns' = (subscribe_connection id docs (some conn) conns).0 in
    let keep : SamePeers conns conns' =
      insert-SamePeers id (record conn { phase = (subscribe_phase id docs conn.phase).0 }) conns
        (rw e (ap some (sym same))) in
    (
      keep,
      elim why [
        | inl none_found ↦ rw none_found tt
        | inr (p, k) ↦
            FoundAt-Talks id conns' (subscribe_phase id docs conn.phase).1
              (p, keep id ∙ rw e (ap some k)) found
      ],
    )

pub subscribe_all-found :
    (docs : Map DocumentId DocumentActorId) (ids : List ConnectionId)
    (conns : Map ConnectionId Connection)
    → SamePeers conns (subscribe_all docs ids conns).0
      × All (FoundTalks (subscribe_all docs ids conns).0) (subscribe_all docs ids conns).1
unfolding subscribe_all
subscribe_all-found docs [] conns = ((λ j. refl), tt)
subscribe_all-found docs (id ∷ ids) conns =
    let (conns₁, found) = subscribe_connection id docs (get id conns) conns in
    let (conns₂, more) = subscribe_all docs ids conns₁ in
    let (same, good) = subscribe_connection-found id docs (get id conns) conns refl in
    let (same', good') = subscribe_all-found docs ids conns₁ in
    (
      SamePeers-trans conns conns₁ conns₂ same same',
      All-append (FoundTalks conns₂) found more (FoundTalks-same conns₁ conns₂ found same' good)
          good',
    )

pub add_found-Talks :
    (found : List ToConnect) (conns : Map ConnectionId Connection)
    → All (FoundTalks conns) found
    → (r : Map ConnectionId Connection × List (DocumentActorId × ConnectionId × PeerId))
      × (add_found found conns ≡ some r)
      × SamePeers conns r.0
unfolding add_found
add_found-Talks [] conns t = ((conns, []), refl, λ j. refl)
add_found-Talks (f ∷ found) conns t =
    let (conn, conn', e, k, same) = add_document-at f.doc_id f.conn_id conns t.0 in
    let conns' = insert f.conn_id conn' conns in
    let (r, done, same') =
      add_found-Talks found conns' (FoundTalks-same conns conns' found same t.1) in
    (
      (r.0, (f.actor, f.conn_id, f.peer_id) ∷ r.1),
      ground (arith, e, k, done),
      SamePeers-trans conns conns' r.0 same same',
    )

-- `ensure_connections` does not panic, and changes the connections alone.
pub ensure_connections-total :
    (s : State)
    → (conns : Map ConnectionId Connection) × (todo : List
        (DocumentActorId × ConnectionId × PeerId))
      × (ensure_connections s ≡ some (record s { connections = conns }, todo))
      × SamePeers s.connections conns
unfolding ensure_connections
ensure_connections-total s =
    let (conns, found) = subscribe_all s.document_to_actor (keys s.connections) s.connections in
    let (same, good) = subscribe_all-found s.document_to_actor (keys s.connections) s.connections in
    let (r, done, same') = add_found-Talks found conns good in
    (r.0, r.1, ground (arith, done), SamePeers-trans s.connections conns r.0 same same')
