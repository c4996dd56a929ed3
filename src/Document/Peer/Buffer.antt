-- ===== src/Document/Peer/Buffer.antt =====
-- The bounds on the messages that wait for a sharing decision:
-- samod-core/src/actors/document/peer_doc_connection.rs, over every input of document_actor.rs.
use samod.Prelude.{
  ℕ, ◌≤◌, true, false, Option, none, List, [], ◌∷◌, ◌++◌, ◌≡◌, refl, sym, subst, ◌⊎◌, inl, inr,
  arith, Bool-cases, if_both,
}
use samod.Prelude.Lists.{length, length-append}
use samod.Network.{UnixTimestamp, PeerDocState}
use samod.Messages.{SyncMessage}
use samod.Share.{ShareConfig}
use samod.Document.Library.{Automerge}
use samod.Document.Peer.{
  PeerDocConnection, max_messages, max_bytes, saturating_add, message_bytes, queued_bytes,
  buffer_sync_message, generate_sync_messages, share_config, set_share_config, is_full,
  receive_sync_message, prepare_request, mark_requested, pop,
}
use samod.Document.Peer.Same.{Same, received-Same, prepared-Same, generate_upto-Same}
use samod.Document.Actor.Frame.{Kept}

-- At most 64 messages, and at most 16 MiB of them unless there is just one.
abbrev pub IsBounded : List (SyncMessage × UnixTimestamp) → Type 0
IsBounded pending =
    (length pending ≤ max_messages) × ((queued_bytes 0 pending ≤ max_bytes) ⊎ (length pending ≤ 1))

-- The messages held back are bounded, and there are none once there is a decision.
pub record Waits {am : Automerge} (c : PeerDocConnection am) : Type 0 where
  pub bounded : IsBounded c.pending_sync_messages
  pub undecided : (share_config c ≡ none) ⊎ (c.pending_sync_messages ≡ [])

queued_bytes-snoc :
    (bytes : ℕ) (pending : List (SyncMessage × UnixTimestamp)) (msg : SyncMessage)
    (at : UnixTimestamp)
    → queued_bytes bytes (pending ++ (msg, at) ∷ [])
      ≡ saturating_add (queued_bytes bytes pending) (message_bytes msg)
queued_bytes-snoc bytes [] msg at = refl
queued_bytes-snoc bytes ((first, then) ∷ pending) msg at =
    queued_bytes-snoc (saturating_add bytes (message_bytes first)) pending msg at

room-IsBounded :
    (pending : List (SyncMessage × UnixTimestamp)) (msg : SyncMessage) (at : UnixTimestamp)
    → is_full msg pending ≡ false
    → IsBounded (pending ++ (msg, at) ∷ [])
room-IsBounded [] msg at free = (omega arith, inr (omega arith))
room-IsBounded (first ∷ pending) msg at free = ground (
  arith,
  free,
  length-append (first ∷ pending) ((msg, at) ∷ []),
  queued_bytes-snoc 0 (first ∷ pending) msg at,
)

module _ {am : Automerge} where
  Same-Waits : (c c' : PeerDocConnection am) → Same c c' → Waits c → Waits c'
  Same-Waits c c' (pending, policy, peer) h = record {
    bounded = subst IsBounded (sym pending) h.bounded;
    undecided = ground (arith, pending, policy, h.undecided);
  }

  buffer-Waits :
      (c : PeerDocConnection am) (msg : SyncMessage) (at : UnixTimestamp)
      → Waits c
      → share_config c ≡ none
      → Waits (buffer_sync_message msg at c).1
  unfolding buffer_sync_message
  buffer-Waits c msg at h undecided = elim (Bool-cases (is_full msg c.pending_sync_messages)) [
    | inl full ↦ rw full h
    | inr free ↦ rw free (record {
      bounded = room-IsBounded c.pending_sync_messages msg at free;
      undecided = inl undecided;
    })
  ]

  decided-Waits :
      (c : PeerDocConnection am) (config : ShareConfig)
      → Waits (record (set_share_config config c).1 { pending_sync_messages = [] })
  decided-Waits c config = record {
    bounded = (omega arith, inl (omega arith));
    undecided = inr refl;
  }

  marked-Waits : (c : PeerDocConnection am) → Waits c → Waits (mark_requested c)
  marked-Waits c h =
      if_both Waits c.has_requested h
        (Same-Waits c (record c { has_requested = true; dirty = true }) (refl, refl, refl) h)

  popped-Waits : (c : PeerDocConnection am) → Waits c → Waits (pop c).1
  popped-Waits c h =
      if_both (λ (r : Option PeerDocState × PeerDocConnection am). Waits r.1) c.dirty
        (Same-Waits c (record c { dirty = false }) (refl, refl, refl) h) h

  pub Waits-Kept : Kept (Waits {am = am})
  Waits-Kept = record {
    of_new =
        λ peer_id id. record { bounded = (omega arith, inl (omega arith)); undecided = inl refl };
    marked = marked-Waits;
    buffered = buffer-Waits;
    decided = λ c config h. decided-Waits c config;
    by_sync = record {
      received = λ now doc c msg h.
          Same-Waits c (receive_sync_message now doc c msg).2 (received-Same now doc c msg) h;
      prepared = λ c h. Same-Waits c (prepare_request c) (prepared-Same c) h;
      generated = λ now doc c h.
          Same-Waits c (generate_sync_messages now doc c).1 (generate_upto-Same 2 now doc c) h;
    };
    checked = λ c h undecided. record { bounded = h.bounded; undecided = inl refl };
    popped = popped-Waits;
  }
