-- ===== src/Document/Request/Asking.antt =====
-- When a peer is asked for a document: samod-core/src/actors/document/phase/request.rs.
use samod.Prelude.{
  Bool, true, false, not, ◌&&◌, ◌||◌, Option, some, ◌≡◌, ◌≢◌, refl, ap, nat_eq, arith, Bool-cases,
  inl, inr, option_beq, option_beq_iff,
}
use samod.Share
use samod.Share.{ShareConfig, can_request, config_eq}
use samod.Messages.{SyncMessage}
use samod.Document.Peer.{can_write, is_some_and}
use samod.Document.Request.{
  Request, Peer, PeerState, requesting, awaiting_send, awaiting_share_policy, decide_peer,
  state_under, is_awaiting_policy, may_restart, is_awaiting_send, could_not_write,
}

abbrev pub is_request : SyncMessage → Bool
is_request (SyncMessage.request bytes) = true
is_request _ = false

-- A peer that is to be asked is so under this decision.
abbrev pub AsksUnder : Option ShareConfig → PeerState → Type 0
AsksUnder config state = state ≡ requesting awaiting_send → is_some_and config can_request ≡ true

state_under-AsksUnder :
    (previous : Option ShareConfig) (config : ShareConfig) (state : PeerState)
    → AsksUnder previous state
    → AsksUnder (some config) (state_under previous config state)
state_under-AsksUnder previous config state h e = elim (Bool-cases (can_request config)) [
  | inl asks ↦ asks
  | inr not_asks ↦ elim (Bool-cases (is_awaiting_policy state)) [
    | inl policy ↦ ground (arith, e, policy, not_asks)
    | inr other ↦ elim (Bool-cases (option_beq previous (some config))) [
      | inl same ↦ ground (
        arith,
        e,
        other,
        same,
        not_asks,
        ap (λ p. is_some_and p can_request) ((option_beq_iff previous (some config)).0 same),
        h,
      )
      | inr changed ↦ elim (Bool-cases (not (Share.can_write config) || could_not_write previous)) [
        | inl write ↦ ground (arith, e, other, changed, write, not_asks)
        | inr keeps ↦ elim (Bool-cases (is_awaiting_send state)) [
          | inl send ↦ ground (arith, e, other, changed, keeps, not_asks, send)
          | inr idle ↦ ground (arith, e, other, changed, keeps, not_asks, idle)
        ]
      ]
    ]
  ]
]

state_under-decided :
    (previous : Option ShareConfig) (config : ShareConfig) (state : PeerState)
    → state_under previous config state ≢ requesting awaiting_share_policy
state_under-decided previous config state e = elim (Bool-cases (is_awaiting_policy state)) [
  | inl policy ↦ elim (Bool-cases (can_request config)) [
    | inl asks ↦ ground (arith, e, policy, asks)
    | inr other ↦ ground (arith, e, policy, other)
  ]
  | inr other ↦ elim (Bool-cases (option_beq previous (some config))) [
    | inl same ↦ ground (arith, e, other, same)
    | inr changed ↦ elim (Bool-cases (not (Share.can_write config) || could_not_write previous)) [
      | inl write ↦ elim (Bool-cases (can_request config)) [
        | inl asks ↦ ground (arith, e, other, changed, write, asks)
        | inr refused ↦ ground (arith, e, other, changed, write, refused)
      ]
      | inr keeps ↦ elim (Bool-cases (can_request config && may_restart state)) [
        | inl restart ↦ ground (arith, e, other, changed, keeps, restart)
        | inr stays ↦ elim (Bool-cases (not (can_request config) && is_awaiting_send state)) [
          | inl blocks ↦ ground (arith, e, other, changed, keeps, stays, blocks)
          | inr same ↦ ground (arith, e, other, changed, keeps, stays, same)
        ]
      ]
    ]
  ]
]

-- A decision that does not let a peer be asked leaves it not to be asked, if it was to be asked
-- only where the decision before allowed it; and a decision ends the wait for one.
pub decide_peer-AsksUnder :
    (previous : Option ShareConfig) (config : ShareConfig) (peer : Peer)
    → AsksUnder previous peer.state
    → AsksUnder (some config) (decide_peer previous config peer).state
      × ((decide_peer previous config peer).policy_pending ≡ false)
      × ((decide_peer previous config peer).state ≢ requesting awaiting_share_policy)
decide_peer-AsksUnder previous config peer h = (
  state_under-AsksUnder previous config peer.state h,
  refl,
  state_under-decided previous config peer.state,
)
