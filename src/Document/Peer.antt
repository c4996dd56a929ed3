-- ===== src/Document/Peer.antt =====
-- What a document actor keeps of a connection: samod-core/src/actors/document/peer_doc_connection.rs.
-- The times that it measures are left out; whether a message was applied is a Boolean.
pub mod Same
pub mod Buffer
pub mod Generate
use samod.Prelude.{
  ℕ, zero, suc, ◌+◌, ◌*◌, ◌-◌, ◌^◌, min, Bool, true, false, not, ◌&&◌, ◌||◌, Option, none, some,
  List, [], ◌∷◌, ◌++◌, ◌==◌, nat_eq, list_eq, ltb, leb, if◌then◌else◌,
}
use samod.Prelude.Lists.{length, is_empty}
use samod.Network.{ConnectionId, PeerId, UnixTimestamp, ChangeHash, PeerDocState, empty_state}
use samod.Share
use samod.Share.{ShareConfig}
use samod.Messages.{SyncMessage}
use samod.Document.Library.{Automerge}

pub data SharePolicyState : Type 0 where
  unknown loading : SharePolicyState
  ready : ShareConfig → SharePolicyState

pub record PeerDocConnection (am : Automerge) : Type 0 where
  pub connection_id : ConnectionId
  pub peer_id : PeerId
  pub sync_state : am.SyncState
  pub has_requested : Bool
  pub dirty : Bool
  pub state : PeerDocState
  pub share_policy : SharePolicyState
  pub last_share_config : Option ShareConfig
  pub pending_sync_messages : List (SyncMessage × UnixTimestamp)

abbrev pub new : (am : Automerge) → PeerId → ConnectionId → PeerDocConnection am
new am peer_id connection_id = record {
  connection_id = connection_id;
  peer_id = peer_id;
  sync_state = am.new_read_only;
  has_requested = false;
  dirty = false;
  state = empty_state;
  share_policy = unknown;
  last_share_config = none;
  pending_sync_messages = [];
}

abbrev pub max_messages : ℕ
max_messages = 64

abbrev pub max_bytes : ℕ
max_bytes = 16 * 1024 * 1024

-- `usize::saturating_add`
abbrev pub saturating_add : ℕ → ℕ → ℕ
saturating_add a b = min (a + b) (2 ^ 64 - 1)

abbrev pub message_bytes : SyncMessage → ℕ
message_bytes (SyncMessage.sync bytes) = length bytes
message_bytes (SyncMessage.request bytes) = length bytes
message_bytes SyncMessage.doc_unavailable = 0

abbrev pub queued_bytes : ℕ → List (SyncMessage × UnixTimestamp) → ℕ
queued_bytes bytes [] = bytes
queued_bytes bytes ((msg, at) ∷ pending) =
    queued_bytes (saturating_add bytes (message_bytes msg)) pending

-- Whether there is no room for a message.
abbrev pub is_full : SyncMessage → List (SyncMessage × UnixTimestamp) → Bool
is_full msg pending =
    leb max_messages (length pending)
    || (not (is_empty pending)
        && ltb max_bytes (saturating_add (queued_bytes 0 pending) (message_bytes msg)))

-- `Option::is_some`, `Option::is_some_and`
abbrev pub is_some : {A : Type 0} → Option A → Bool
is_some none = false
is_some (some x) = true

abbrev pub is_some_and : {A : Type 0} → Option A → (A → Bool) → Bool
is_some_and none p = false
is_some_and (some x) p = p x

abbrev pub config_of : SharePolicyState → Option ShareConfig
config_of (ready config) = some config
config_of _ = none

abbrev was_denied : Option ShareConfig → Bool
was_denied previous = is_some_and previous (λ old. not (Share.can_read old))

-- `msg.heads != heads`
abbrev pub is_follow_up : (am : Automerge) → am.Doc → am.Message → Bool
is_follow_up am doc msg = not (am.message_heads msg == am.get_heads doc)

module _ {am : Automerge} where
  abbrev pub share_config : PeerDocConnection am → Option ShareConfig
  share_config c = config_of c.share_policy

  abbrev pub can_read : PeerDocConnection am → Bool
  can_read c = is_some_and (share_config c) Share.can_read

  abbrev pub can_write : PeerDocConnection am → Bool
  can_write c = is_some_and (share_config c) Share.can_write

  abbrev pub their_heads : PeerDocConnection am → Option (List ChangeHash)
  their_heads c = am.state_their_heads c.sync_state

  abbrev pub can_send : PeerDocConnection am → Bool
  can_send c =
      can_read c
      && (c.has_requested
          || is_some (their_heads c)
          || is_some_and (share_config c) (λ config. config.announce))

  abbrev pub reset_sync_state : PeerDocConnection am → PeerDocConnection am
  reset_sync_state c = record c {
    sync_state = if can_write c then am.new_state else am.new_read_only;
  }

  abbrev pub has_exchanged : PeerDocConnection am → Bool
  has_exchanged c = is_some c.state.last_sent || is_some c.state.last_received

  -- The sync state's part of the reported state.
  abbrev pub report_sync : PeerDocConnection am → PeerDocConnection am
  report_sync c = record c {
    state = record c.state {
      shared_heads = some (am.shared_heads c.sync_state);
      their_heads = am.state_their_heads c.sync_state;
      peer_read_only = am.is_peer_read_only c.sync_state;
    };
    dirty = true;
  }

  abbrev pub set_read_only : Bool → PeerDocConnection am → PeerDocConnection am
  set_read_only read_only c = record c { sync_state = am.set_read_only read_only c.sync_state }

  unfoldable pub prepare_request : PeerDocConnection am → PeerDocConnection am
  prepare_request c =
      if has_exchanged c then report_sync (set_read_only false (set_read_only true c)) else c

  abbrev pub mark_requested : PeerDocConnection am → PeerDocConnection am
  mark_requested c = if c.has_requested then c else record c { has_requested = true; dirty = true }

  abbrev pub received_at : UnixTimestamp → PeerDocConnection am → PeerDocConnection am
  received_at now c = report_sync (record c {
    state = record c.state { last_received = some now; last_acked_heads = their_heads c };
  })

  -- Whether the message was applied, the document and the connection.
  unfoldable pub receive_sync_message :
      UnixTimestamp
      → am.Doc
      → PeerDocConnection am
      → am.Message
      → Bool × am.Doc × PeerDocConnection am
  receive_sync_message now doc c msg =
      let (done, doc', sync_state) = am.receive msg doc c.sync_state in
      let c' : PeerDocConnection am = record c { sync_state = sync_state } in
      (done, doc', if done then received_at now c' else c')

  abbrev corrected : am.Doc → am.Message → PeerDocConnection am → PeerDocConnection am
  corrected doc msg c =
      if is_follow_up am doc msg
      then record c { sync_state = am.set_last_sent_heads (am.message_heads msg) c.sync_state }
      else c

  abbrev pub mark_up : UnixTimestamp → am.Message → PeerDocConnection am → PeerDocConnection am
  mark_up now msg c = record c {
    state = record c.state {
      last_sent = some now;
      last_sent_heads = some (am.message_heads msg);
      shared_heads = some (am.shared_heads c.sync_state);
    };
    dirty = true;
  }

  abbrev pub mark_sent :
      UnixTimestamp → am.Doc → am.Message → PeerDocConnection am → PeerDocConnection am
  mark_sent now doc msg c = mark_up now msg (corrected doc msg c)

  -- A turn of the loop, with what goes on after a follow-up.
  abbrev pub send_one :
      UnixTimestamp
      → am.Doc
      → (PeerDocConnection am → List am.Message × PeerDocConnection am)
      → PeerDocConnection am
      → Option am.Message
      → List am.Message × PeerDocConnection am
  send_one now doc more c none = ([], c)
  send_one now doc more c (some msg) =
      let sent = mark_sent now doc msg c in
      let (msgs, last) = more sent in
      if is_follow_up am doc msg then (msg ∷ msgs, last) else (msg ∷ [], sent)

  -- The messages, with a bound on their number.
  unfoldable pub generate_upto :
      ℕ → UnixTimestamp → am.Doc → PeerDocConnection am → List am.Message × PeerDocConnection am
  generate_upto zero now doc c = ([], c)
  generate_upto (suc n) now doc c =
      let (generated, sync_state) = am.generate doc c.sync_state in
      send_one now doc (generate_upto n now doc) (record c { sync_state = sync_state }) generated

  -- Two messages are the most where the library answers a correction with the real heads.
  abbrev pub generate_sync_messages :
      UnixTimestamp → am.Doc → PeerDocConnection am → List am.Message × PeerDocConnection am
  generate_sync_messages now doc c = generate_upto 2 now doc c

  abbrev pub pop : PeerDocConnection am → Option PeerDocState × PeerDocConnection am
  pop c = if c.dirty then (some c.state, record c { dirty = false }) else (none, c)

  -- Whether the message was taken.
  unfoldable pub buffer_sync_message :
      SyncMessage → UnixTimestamp → PeerDocConnection am → Bool × PeerDocConnection am
  buffer_sync_message msg received_at c =
      if is_full msg c.pending_sync_messages then (false, c) else (
        true,
        record c { pending_sync_messages = c.pending_sync_messages ++ (msg, received_at) ∷ [] },
      )

  abbrev apply_config :
      Option ShareConfig → ShareConfig → PeerDocConnection am → PeerDocConnection am
  apply_config previous config c =
      let regranted =
        if was_denied previous && Share.can_read config then set_read_only false c else c in
      report_sync (set_read_only (not (Share.can_write config)) regranted)

  -- The decision that the new one replaces, and the connection.
  unfoldable pub set_share_config :
      ShareConfig → PeerDocConnection am → Option ShareConfig × PeerDocConnection am
  set_share_config config c =
      let c' : PeerDocConnection am = record c {
        last_share_config = some config;
        share_policy = ready config;
      } in
      let synced =
        if has_exchanged c'
        then apply_config c.last_share_config config c'
        else reset_sync_state c' in
      (
        c.last_share_config,
        record synced { state = record synced.state { share_config = some config }; dirty = true },
      )
