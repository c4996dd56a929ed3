-- ===== src/Dialer/Machine.antt =====
-- The dialer as a state machine: samod-core/src/actors/hub/dialer.rs. `run` makes any sequence of
-- its operations.
use samod.Prelude.{ℕ, ◌≡◌, refl, ◌⊎◌, inl, inr, List, [], ◌∷◌, arith, leb, ◌==◌, nat_eq, Bool-cases}
use samod.Dialer.{
  DialerState, DialerStatus, need_transport, transport_pending, connected, waiting_to_retry, failed,
  ConnectionLostOutcome, not_ours, retry_or_fail, handle_connection_lost, handle_dial_failed,
  handle_permanent_dial_failure, set_connected, reset_backoff, check_retry, mark_transport_pending,
  exceeds, next_attempt, compute_retry_time,
}

pub data Op : Type 0 where
  lose : (ℕ → ℕ) → ℕ → ℕ → Op
  fail_dial : (ℕ → ℕ) → ℕ → Op
  fail_forever : Op
  connect : ℕ → Op
  reset : Op
  tick : ℕ → Op
  mark_pending : Op

-- The state after an operation, with the outcome of the two that have one.
unfoldable pub step : Op → DialerState → DialerState × ConnectionLostOutcome
step (lose jitter now connection_id) d = handle_connection_lost jitter now connection_id d
step (fail_dial jitter now) d = handle_dial_failed jitter now d
step fail_forever d = ((handle_permanent_dial_failure d).0, not_ours)
step (connect connection_id) d = ((set_connected connection_id d).0, not_ours)
step reset d = (reset_backoff d, not_ours)
step (tick now) d = ((check_retry now d).0, not_ours)
step mark_pending d = ((mark_transport_pending d).0, not_ours)

unfoldable pub run : List Op → DialerState → DialerState
run [] d = d
run (op ∷ ops) d = run ops (step op d).0

-- The transitions that the comments on `DialerStatus` allow, written down independently.
pub data Edge (s t : DialerStatus) : Type 0 where
  dial : s ≡ need_transport → t ≡ transport_pending → Edge s t
  establish : (cid : ℕ) → s ≡ transport_pending → t ≡ connected cid → Edge s t
  dial_later : (at : ℕ) → s ≡ transport_pending → t ≡ waiting_to_retry at → Edge s t
  give_up_dialling : s ≡ transport_pending → t ≡ failed → Edge s t
  reconnect_later : (cid at : ℕ) → s ≡ connected cid → t ≡ waiting_to_retry at → Edge s t
  give_up_reconnecting : (cid : ℕ) → s ≡ connected cid → t ≡ failed → Edge s t
  due : (at : ℕ) → s ≡ waiting_to_retry at → t ≡ need_transport → Edge s t

retry_or_fail-status :
    (jitter : ℕ → ℕ) (now : ℕ) (d : DialerState)
    → ((retry_or_fail jitter now d).0.status ≡ failed)
      ⊎ ((at : ℕ) × ((retry_or_fail jitter now d).0.status ≡ waiting_to_retry at))
unfolding retry_or_fail
retry_or_fail-status jitter now d =
    elim (Bool-cases (exceeds d.backoff_config.max_retries (next_attempt d.attempts))) [
      | inl h ↦ inl (rw h)
      | inr h ↦ inr (compute_retry_time jitter now d.backoff_config (next_attempt d.attempts), rw h)
    ]

lose-Edge :
    (jitter : ℕ → ℕ) (now connection_id cid : ℕ) (d : DialerState)
    → d.status ≡ connected cid
    → ((handle_connection_lost jitter now connection_id d).0.status ≡ d.status)
      ⊎ Edge d.status (handle_connection_lost jitter now connection_id d).0.status
unfolding handle_connection_lost
lose-Edge jitter now connection_id cid d e = elim (Bool-cases (cid == connection_id)) [
  | inl h ↦ elim (retry_or_fail-status jitter now d) [
    | inl f ↦ inr (give_up_reconnecting cid e (ground (arith, f)))
    | inr (at, f) ↦ inr (reconnect_later cid at e (ground (arith, f)))
  ]
  | inr h ↦ inl (ground arith)
]

fail_dial-Edge :
    (jitter : ℕ → ℕ) (now : ℕ) (d : DialerState)
    → d.status ≡ transport_pending
    → ((handle_dial_failed jitter now d).0.status ≡ d.status)
      ⊎ Edge d.status (handle_dial_failed jitter now d).0.status
unfolding handle_dial_failed
fail_dial-Edge jitter now d e = elim (retry_or_fail-status jitter now d) [
  | inl f ↦ inr (give_up_dialling e (ground (arith, f)))
  | inr (at, f) ↦ inr (dial_later at e (ground (arith, f)))
]

tick-Edge :
    (now at : ℕ) (d : DialerState)
    → d.status ≡ waiting_to_retry at
    → ((check_retry now d).0.status ≡ d.status) ⊎ Edge d.status (check_retry now d).0.status
unfolding check_retry
tick-Edge now at d e = elim (Bool-cases (leb at now)) [
  | inl h ↦ inr (due at e (ground arith))
  | inr h ↦ inl (ground arith)
]

edge_from :
    (op : Op) (d : DialerState) (s : DialerStatus)
    → d.status ≡ s
    → ((step op d).0.status ≡ d.status) ⊎ Edge d.status (step op d).0.status
unfolding step handle_connection_lost handle_dial_failed handle_permanent_dial_failure set_connected
    reset_backoff check_retry mark_transport_pending
edge_from (lose jitter now connection_id) d (connected cid) e =
    lose-Edge jitter now connection_id cid d e
edge_from (fail_dial jitter now) d transport_pending e = fail_dial-Edge jitter now d e
edge_from fail_forever d transport_pending e = inr (give_up_dialling e (ground arith))
edge_from (connect connection_id) d transport_pending e =
    inr (establish connection_id e (ground arith))
edge_from (tick now) d (waiting_to_retry t) e = tick-Edge now t d e
edge_from mark_pending d need_transport e = inr (dial e (ground arith))
edge_from _ d _ e = inl (ground arith)

step-failed : (op : Op) (d : DialerState) → d.status ≡ failed → (step op d).0.status ≡ failed
unfolding step handle_connection_lost handle_dial_failed handle_permanent_dial_failure set_connected
    reset_backoff check_retry mark_transport_pending
step-failed (tick now) d h = ground arith
step-failed _ d h = ground arith

-- Each operation leaves the status as it was or takes one of the allowed transitions.
pub step-Edge :
    (op : Op) (d : DialerState)
    → ((step op d).0.status ≡ d.status) ⊎ Edge d.status (step op d).0.status
unfolding step
step-Edge op d = edge_from op d d.status refl

-- No sequence of operations leaves the failed state.
pub run-failed : (ops : List Op) (d : DialerState) → d.status ≡ failed → (run ops d).status ≡ failed
unfolding run
run-failed [] d h = h
run-failed (op ∷ ops) d h = run-failed ops (step op d).0 (step-failed op d h)
