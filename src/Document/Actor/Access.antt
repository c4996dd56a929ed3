-- ===== src/Document/Actor/Access.antt =====
-- Who is sent a document's data: samod-core/src/actors/document/document_actor.rs, `step`.
use samod.Prelude.{
  ℕ, ltb, Bool, true, false, ◌&&◌, Option, List, [], ◌∷◌, ◌++◌, ◌≡◌, refl, ◌==◌, nat_eq, inl, inr,
  subst, sym, ◌∙◌, Bool-cases, if_both,
}
use samod.Prelude.Lists.{All, All-snoc, any}
use samod.Network.{ConnectionId, DocumentId, UnixTimestamp, PeerDocState}
use samod.Messages.{SyncMessage, DocToHubMsg, send_sync_message}
use samod.Document.Library.{Automerge}
use samod.Document.Results.{DocActorResult, SyncDirection, generated, send_sync}
use samod.Document.Peer.{
  PeerDocConnection, SharePolicyState, message_bytes, pop, can_read, config_of, is_some_and,
}
use samod.Share
use samod.Document.Peer.Same.{received-Same, prepared-Same, generate_upto-Same}
use samod.Document.Request.Messages.{generate_messages}
use samod.Document.Phases.{generate_ready}
use samod.Document.Actor.{Phase, loading, requesting, ready}
use samod.Document.Actor.Sync.{is_data, note_message}
use samod.Document.Actor.Step.{Peers, generate_for, generate_each, send_all, new_peer_states}
use samod.Document.Actor.Frame.{KeptBySync, generate_messages-Kept, generate_ready-Kept}

-- The connections with their sharing decisions.
abbrev pub Policies : Type 0
Policies = List (ConnectionId × SharePolicyState)

abbrev pub policies : {am : Automerge} → Peers am → Policies
policies [] = []
policies ((id, c) ∷ peers) = (id, c.share_policy) ∷ policies peers

abbrev reads : ConnectionId → ConnectionId × SharePolicyState → Bool
reads id (own, policy) = own == id && is_some_and (config_of policy) Share.can_read

-- A connection of this identifier is decided and may read.
abbrev pub MayRead : Policies → ConnectionId → Type 0
MayRead decisions id = any (reads id) decisions ≡ true

-- A message that carries a document's data is for a connection that may read.
abbrev pub IsAllowed : Policies → DocToHubMsg → Type 0
IsAllowed decisions (send_sync_message id doc_id msg) = is_data msg ≡ true → MayRead decisions id
IsAllowed decisions _ = Unit

pub note_message-messages :
    (id : ConnectionId) (direction : SyncDirection) (bytes : ℕ) (out : DocActorResult)
    → (note_message id direction bytes out).outgoing_messages ≡ out.outgoing_messages
note_message-messages id direction bytes out =
    if_both (λ (o : DocActorResult). o.outgoing_messages ≡ out.outgoing_messages) (ltb 0 bytes) refl
      refl

pub send_all-IsAllowed :
    (decisions : Policies) (doc_id : DocumentId) (id : ConnectionId) (msgs : List SyncMessage)
    (out : DocActorResult)
    → MayRead decisions id
    → All (IsAllowed decisions) out.outgoing_messages
    → All (IsAllowed decisions) (send_all doc_id id msgs out).outgoing_messages
send_all-IsAllowed decisions doc_id id [] out may h = h
send_all-IsAllowed decisions doc_id id (msg ∷ msgs) out may h =
    let noted = note_message id generated (message_bytes msg) out in
    let same = note_message-messages id generated (message_bytes msg) out in
    send_all-IsAllowed decisions doc_id id msgs (send_sync noted id doc_id msg) may (
      subst (λ sent. All (IsAllowed decisions) (sent ++ send_sync_message id doc_id msg ∷ []))
        (sym same) (All-snoc (IsAllowed decisions) out.outgoing_messages h (λ carries. may)))

module _ {am : Automerge} where
  same_policy-KeptBySync :
      (policy : SharePolicyState)
      → KeptBySync (λ (c : PeerDocConnection am). c.share_policy ≡ policy)
  same_policy-KeptBySync policy = record {
    received = λ now doc c msg h. (received-Same now doc c msg).1 ∙ h;
    prepared = λ c h. (prepared-Same c).1 ∙ h;
    generated = λ now doc c h. (generate_upto-Same 2 now doc c).1 ∙ h;
  }

  generate_for-policy :
      (now : UnixTimestamp) (doc : am.Doc) (c : PeerDocConnection am) (phase : Phase)
      → (generate_for now doc c phase).1.share_policy ≡ c.share_policy
  generate_for-policy now doc c (loading l) = refl
  generate_for-policy now doc c (requesting request) =
      generate_messages-Kept (same_policy-KeptBySync c.share_policy) now doc c request refl
  generate_for-policy now doc c ready =
      generate_ready-Kept (same_policy-KeptBySync c.share_policy) now doc c refl

  -- Nothing with data is generated for a connection that may not read.
  generate_for-reads :
      (now : UnixTimestamp) (doc : am.Doc) (c : PeerDocConnection am) (phase : Phase)
      → can_read c ≡ false
      → (generate_for now doc c phase).0 ≡ []
  unfolding generate_messages generate_ready
  generate_for-reads now doc c (loading l) h = refl
  generate_for-reads now doc c (requesting request) h = rw h refl
  generate_for-reads now doc c ready h = rw h refl

  pub generate_each-policies :
      (now : UnixTimestamp) (doc_id : DocumentId) (doc : am.Doc) (peers : Peers am)
      (r : Phase × DocActorResult)
      → policies (generate_each now doc_id doc peers r).0 ≡ policies peers
  unfolding generate_each
  generate_each-policies now doc_id doc [] r = refl
  generate_each-policies now doc_id doc ((id, c) ∷ peers) (phase, out) =
      let (msgs, c', phase') = generate_for now doc c phase in
      cc (
        generate_for-policy now doc c phase,
        generate_each-policies now doc_id doc peers (phase', send_all doc_id id msgs out),
      )

  pub generate_each-IsAllowed :
      (now : UnixTimestamp) (doc_id : DocumentId) (doc : am.Doc) (decisions : Policies)
      (peers : Peers am) (r : Phase × DocActorResult)
      → All
          (λ (id, policy).
            is_some_and (config_of policy) Share.can_read ≡ true → MayRead decisions id)
          (policies peers)
      → All (IsAllowed decisions) r.1.outgoing_messages
      → All (IsAllowed decisions) (generate_each now doc_id doc peers r).2.outgoing_messages
  unfolding generate_each
  generate_each-IsAllowed now doc_id doc decisions [] r may h = h
  generate_each-IsAllowed now doc_id doc decisions ((id, c) ∷ peers) (phase, out) may h =
      let (msgs, c', phase') = generate_for now doc c phase in
      generate_each-IsAllowed now doc_id doc decisions peers (phase', send_all doc_id id msgs out)
        may.1
        (elim (Bool-cases (can_read c)) [
          | inl reads ↦ send_all-IsAllowed decisions doc_id id msgs out (may.0 reads) h
          | inr denied ↦ rw (generate_for-reads now doc c phase denied) h
        ])

  pub new_peer_states-policies :
      (peers : Peers am) → policies (new_peer_states peers).1 ≡ policies peers
  new_peer_states-policies [] = refl
  new_peer_states-policies ((id, c) ∷ peers) =
      let popped : (pop c).1.share_policy ≡ c.share_policy =
        if_both
          (λ (r : Option PeerDocState × PeerDocConnection am). r.1.share_policy ≡ c.share_policy)
          c.dirty refl refl in
      cc (popped, new_peer_states-policies peers)
