-- ===== src/Document/Peer/Generate.antt =====
-- The loop that generates the sync messages of a turn, given more than two messages:
-- samod-core/src/actors/document/peer_doc_connection.rs, `generate_sync_messages`.
use samod.Prelude.{
  ℕ, suc, true, false, Option, none, some, List, [], ◌∷◌, ◌≡◌, refl, sym, ap, ◌∙◌, inl, inr,
  Bool-cases, if◌then◌else◌,
}
use samod.Network.{UnixTimestamp}
use samod.Document.Library.{Automerge}
use samod.Document.Peer.{
  PeerDocConnection, mark_sent, is_follow_up, send_one, generate_upto, generate_sync_messages,
}

-- The library's reset advertises other heads than the document's once: when what was sent is
-- recorded, the next message, if there is one, has the document's heads.
abbrev pub Settles : (am : Automerge) → am.Doc → Type 0
Settles am doc =
    (s : am.SyncState) (msg next : am.Message)
    → (am.generate doc s).0 ≡ some msg
    → is_follow_up am doc msg ≡ true
    → (am.generate doc (am.set_last_sent_heads (am.message_heads msg) (am.generate doc s).1)).0
      ≡ some next
    → is_follow_up am doc next ≡ false

-- A loop.
abbrev More : Automerge → Type 0
More am = PeerDocConnection am → List am.Message × PeerDocConnection am

module _ {am : Automerge} (now : UnixTimestamp) (doc : am.Doc) where
  send_one-last :
      (more others : More am) (c : PeerDocConnection am) (generated : Option am.Message)
      → ((msg : am.Message) → generated ≡ some msg → is_follow_up am doc msg ≡ false)
      → send_one now doc more c generated ≡ send_one now doc others c generated
  send_one-last more others c none h = refl
  send_one-last more others c (some msg) h = rw (h msg refl) refl

  send_one-agree :
      (more others : More am) (c : PeerDocConnection am) (generated : Option am.Message)
      → ((msg : am.Message)
          → generated ≡ some msg
          → is_follow_up am doc msg ≡ true
          → more (mark_sent now doc msg c) ≡ others (mark_sent now doc msg c))
      → send_one now doc more c generated ≡ send_one now doc others c generated
  send_one-agree more others c none h = refl
  send_one-agree more others c (some msg) h = elim (Bool-cases (is_follow_up am doc msg)) [
    | inl follow ↦
        ap
          (λ (r : List am.Message × PeerDocConnection am).
            if is_follow_up am doc msg
            then (msg ∷ r.0, r.1)
            else (msg ∷ [], mark_sent now doc msg c))
          (h msg refl follow)
    | inr last ↦ rw last refl
  ]

  -- After a follow-up the loop goes on for one more turn at the most.
  second_turn :
      Settles am doc
      → (n : ℕ) (c : PeerDocConnection am) (s : am.SyncState) (msg : am.Message)
      → (am.generate doc s).0 ≡ some msg
      → is_follow_up am doc msg ≡ true
      → c.sync_state ≡ (am.generate doc s).1
      → generate_upto (suc n) now doc (mark_sent now doc msg c)
        ≡ generate_upto 1 now doc (mark_sent now doc msg c)
  unfolding generate_upto
  second_turn settles n c s msg e follow same =
      let sent = mark_sent now doc msg c in
      let s' = am.set_last_sent_heads (am.message_heads msg) (am.generate doc s).1 in
      let sent_state : sent.sync_state ≡ s' =
        rw follow (ap (am.set_last_sent_heads (am.message_heads msg)) same) in
      let (next, state) = am.generate doc sent.sync_state in
      send_one-last (generate_upto n now doc) (generate_upto 0 now doc)
        (record sent { sync_state = state }) next
        λ msg' f. settles s msg msg' e follow (ap (λ t. (am.generate doc t).0) (sym sent_state) ∙ f)

  -- However many messages the loop may generate, it generates no other than it does with two, if
  -- the library answers a correction with the document's heads.
  pub generate_upto_enough :
      Settles am doc
      → (n : ℕ) (c : PeerDocConnection am)
      → generate_upto (suc (suc n)) now doc c ≡ generate_sync_messages now doc c
  unfolding generate_upto
  generate_upto_enough settles n c =
      let (generated, sync_state) = am.generate doc c.sync_state in
      let c' : PeerDocConnection am = record c { sync_state = sync_state } in
      send_one-agree (generate_upto (suc n) now doc) (generate_upto 1 now doc) c' generated
        λ msg e follow. second_turn settles n c' c.sync_state msg e follow refl
