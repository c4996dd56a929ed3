-- ===== src/Document/Request.antt =====
-- The search for a document among the peers: samod-core/src/actors/document/phase/request.rs.
-- The durations that it measures are left out; whether a message was applied is a Boolean.
pub mod Messages
pub mod Asking
use samod.Prelude.{
  Bool, true, false, not, ◌&&◌, ◌||◌, Option, none, some, List, [], ◌∷◌, map, nat_eq, option_beq,
  if◌then◌else◌,
}
use samod.Prelude.Lists.{all, any, is_empty}
use samod.Prelude.Map.{Map, values, get, insert, remove}
use samod.Network.{ConnectionId, DocumentId, UnixTimestamp, Bytes, ChangeHash}
use samod.Share.{ShareConfig, can_request, config_eq}
use samod.Share
use samod.Messages.{SyncMessage, PeerRequestState}
use samod.Document.Library.{Automerge}
use samod.Document.Peer.{
  PeerDocConnection, share_config, can_read, can_write, can_send, their_heads, prepare_request,
  receive_sync_message, generate_sync_messages, is_some, is_some_and,
}

pub data Requesting : Type 0 where
  awaiting_send sent awaiting_share_policy blocked_by_policy : Requesting

-- `requested_from_us` says whether the unavailable response was sent, and whether the policy blocks.
pub data PeerState : Type 0 where
  requesting : Requesting → PeerState
  requested_from_us : Bool → Bool → PeerState
  unavailable : PeerState
  syncing : List ChangeHash → PeerState

pub record Peer : Type 0 where
  pub state : PeerState
  pub policy_pending : Bool

pub record Request : Type 0 where
  pub doc_id : DocumentId
  pub peer_states : Map ConnectionId Peer

pub data RequestOutcome : Type 0 where
  searching found exhausted : RequestOutcome

-- `From<Option<ShareConfig>> for Requesting`
abbrev pub from_config : Option ShareConfig → Requesting
from_config none = awaiting_share_policy
from_config (some config) = if can_request config then awaiting_send else blocked_by_policy

abbrev pub or_default : Option (List ChangeHash) → List ChangeHash
or_default none = []
or_default (some heads) = heads

module _ {am : Automerge} where
  abbrev pub new_peer : PeerDocConnection am → Peer
  new_peer c = record {
    state = requesting (from_config (share_config c));
    policy_pending = not (is_some (share_config c));
  }

  abbrev collect : List (PeerDocConnection am) → Map ConnectionId Peer → Map ConnectionId Peer
  collect [] peers = peers
  collect (c ∷ cs) peers = collect cs (insert c.connection_id (new_peer c) peers)

  abbrev pub new : DocumentId → List (PeerDocConnection am) → Request
  new doc_id connections = record { doc_id = doc_id; peer_states = collect connections [] }

  abbrev pub add_connection : PeerDocConnection am → Request → Request
  add_connection c r = record r { peer_states = insert c.connection_id (new_peer c) r.peer_states }

abbrev pub remove_connection : ConnectionId → Request → Request
remove_connection id r = record r { peer_states = remove id r.peer_states }

abbrev pub set_state : PeerState → Peer → Peer
set_state state peer = record peer { state = state }

abbrev pub gives_up : Peer → Bool
gives_up peer = elim peer.state [
  | unavailable ↦ not peer.policy_pending
  | requested_from_us answered blocked ↦ not peer.policy_pending
  | requesting blocked_by_policy ↦ not peer.policy_pending
  | _ ↦ false
]

module _ (am : Automerge) where
  abbrev pub is_done : am.Doc → Peer → Bool
  is_done doc peer = elim peer.state [
    | syncing heads ↦ not peer.policy_pending && all (am.has_change doc) heads
    | _ ↦ false
  ]

  unfoldable pub outcome : am.Doc → Request → RequestOutcome
  outcome doc r =
      let peers = values r.peer_states in
      if any (is_done doc) peers
      then found
      else if all gives_up peers && not (is_empty peers)
      then exhausted
      else searching

abbrev pub report_state : PeerState → PeerRequestState
report_state (requesting blocked_by_policy) = PeerRequestState.blocked_by_policy
report_state (requesting r) = PeerRequestState.requested
report_state (requested_from_us answered true) = PeerRequestState.blocked_by_policy
report_state (requested_from_us answered false) = PeerRequestState.requested
report_state unavailable = PeerRequestState.unavailable
report_state (syncing heads) = PeerRequestState.syncing

abbrev pub report : Peer → PeerRequestState
report peer = if peer.policy_pending then PeerRequestState.requested else report_state peer.state

abbrev report_all : Map ConnectionId Peer → Map ConnectionId PeerRequestState
report_all [] = []
report_all ((id, peer) ∷ peers) = (id, report peer) ∷ report_all peers

unfoldable pub peer_states : Request → Map ConnectionId PeerRequestState
peer_states r = report_all r.peer_states

abbrev pub could_not_write : Option ShareConfig → Bool
could_not_write previous = is_some_and previous (λ old. not (Share.can_write old))

abbrev pub may_restart : PeerState → Bool
may_restart (requesting blocked_by_policy) = true
may_restart unavailable = true
may_restart (requested_from_us answered blocked) = true
may_restart _ = false

abbrev pub is_awaiting_policy : PeerState → Bool
is_awaiting_policy (requesting awaiting_share_policy) = true
is_awaiting_policy _ = false

abbrev pub is_awaiting_send : PeerState → Bool
is_awaiting_send (requesting awaiting_send) = true
is_awaiting_send _ = false

abbrev pub state_under : Option ShareConfig → ShareConfig → PeerState → PeerState
state_under previous config state =
    if is_awaiting_policy state
    then requesting (from_config (some config))
    else if option_beq previous (some config)
    then state
    else if not (Share.can_write config) || could_not_write previous
    then requesting (from_config (some config))
    else if can_request config && may_restart state
    then requesting awaiting_send
    else if not (can_request config) && is_awaiting_send state
    then requesting blocked_by_policy
    else state

abbrev pub decide_peer : Option ShareConfig → ShareConfig → Peer → Peer
decide_peer previous config peer = record {
  state = state_under previous config peer.state;
  policy_pending = false;
}

abbrev decide_known :
    ConnectionId → Option ShareConfig → ShareConfig → Request → Option Peer → Request
decide_known id previous config r none = r
decide_known id previous config r (some peer) = record r {
  peer_states = insert id (decide_peer previous config peer) r.peer_states;
}

unfoldable pub share_policy_changed :
    ConnectionId → Option ShareConfig → ShareConfig → Request → Request
share_policy_changed id previous config r = decide_known id previous config r (get id r.peer_states)
