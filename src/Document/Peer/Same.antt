-- ===== src/Document/Peer/Same.antt =====
-- What a connection keeps while sync messages come and go:
-- samod-core/src/actors/document/peer_doc_connection.rs.
use samod.Prelude.{ℕ, zero, suc, Option, none, some, List, ◌≡◌, refl, ◌∙◌, if_both}
use samod.Network.{UnixTimestamp}
use samod.Document.Library.{Automerge}
use samod.Document.Peer.{
  PeerDocConnection, generate_upto, is_follow_up, mark_up, mark_sent, send_one, has_exchanged,
  receive_sync_message, prepare_request,
}

module _ {am : Automerge} where
  -- What stays in a connection while sync messages come and go.
  abbrev pub Same : PeerDocConnection am → PeerDocConnection am → Type 0
  Same c c' =
      (c'.pending_sync_messages ≡ c.pending_sync_messages)
      × (c'.share_policy ≡ c.share_policy)
      × (c'.peer_id ≡ c.peer_id)

  mark_sent-Same :
      (now : UnixTimestamp) (doc : am.Doc) (msg : am.Message) (c : PeerDocConnection am)
      → Same c (mark_sent now doc msg c)
  mark_sent-Same now doc msg c =
      if_both (λ c'. Same c (mark_up now msg c')) (is_follow_up am doc msg) (refl, refl, refl)
        (refl, refl, refl)

  send_one-Same :
      (now : UnixTimestamp) (doc : am.Doc)
      (more : PeerDocConnection am → List am.Message × PeerDocConnection am)
      (c : PeerDocConnection am) (generated : Option am.Message)
      → ((c' : PeerDocConnection am) → Same c' (more c').1)
      → Same c (send_one now doc more c generated).1
  send_one-Same now doc more c none h = (refl, refl, refl)
  send_one-Same now doc more c (some msg) h =
      let sent = mark_sent now doc msg c in
      let (pending, policy, peer) = mark_sent-Same now doc msg c in
      let (pending', policy', peer') = h sent in
      if_both (λ (r : List am.Message × PeerDocConnection am). Same c r.1) (is_follow_up am doc msg)
        (pending' ∙ pending, policy' ∙ policy, peer' ∙ peer) (pending, policy, peer)

  pub generate_upto-Same :
      (n : ℕ) (now : UnixTimestamp) (doc : am.Doc) (c : PeerDocConnection am)
      → Same c (generate_upto n now doc c).1
  unfolding generate_upto
  generate_upto-Same zero now doc c = (refl, refl, refl)
  generate_upto-Same (suc n) now doc c =
      let (generated, sync_state) = am.generate doc c.sync_state in
      send_one-Same now doc (generate_upto n now doc) (record c { sync_state = sync_state })
        generated (generate_upto-Same n now doc)

  pub received-Same :
      (now : UnixTimestamp) (doc : am.Doc) (c : PeerDocConnection am) (msg : am.Message)
      → Same c (receive_sync_message now doc c msg).2
  unfolding receive_sync_message
  received-Same now doc c msg =
      let (done, doc', sync_state) = am.receive msg doc c.sync_state in
      if_both (Same c) done (refl, refl, refl) (refl, refl, refl)

  pub prepared-Same : (c : PeerDocConnection am) → Same c (prepare_request c)
  unfolding prepare_request
  prepared-Same c = if_both (Same c) (has_exchanged c) (refl, refl, refl) (refl, refl, refl)
