-- ===== src/Dialer/Retries.antt =====
-- How often a dialer dials before it gives up: `max_retries` of
-- samod-core/src/network/connector_config.rs.
use samod.Prelude.Lists.{length}
use samod.Prelude.{
  ℕ, ◌+◌, ◌^◌, ◌≤◌, ◌<◌, ◌≡◌, refl, ◌⊎◌, inl, inr, List, [], ◌∷◌, some, arith, nat_eq, true, false,
  Bool,
}
use samod.Dialer.{
  DialerState, transport_pending, failed, ConnectionLostOutcome, will_retry, max_retries_reached,
  next_attempt, handle_connection_lost, handle_dial_failed, handle_permanent_dial_failure,
  set_connected, reset_backoff, check_retry, mark_transport_pending, compute_retry_time,
}
use samod.Dialer.Machine.{Op, lose, fail_dial, reset, tick, mark_pending, step, run}

abbrev is_reset : Op → Bool
is_reset reset = true
is_reset _ = false

abbrev retries : ConnectionLostOutcome → ℕ
retries (will_retry at) = 1
retries _ = 0

-- The number of retries that a sequence of operations schedules.
unfoldable pub scheduled : List Op → DialerState → ℕ
scheduled [] d = 0
scheduled (op ∷ ops) d = retries (step op d).1 + scheduled ops (step op d).0

abbrev pub NoReset : List Op → Type 0
NoReset [] = Unit
NoReset (op ∷ ops) = (is_reset op ≡ false) × NoReset ops

-- What one operation adds: a retry is an attempt, below the limit.
step-retries :
    (op : Op) (d : DialerState) (limit : ℕ)
    → d.backoff_config.max_retries ≡ some limit
    → limit + 1 < 2 ^ 32
    → is_reset op ≡ false
    → d.attempts ≤ limit
    → ((step op d).0.backoff_config.max_retries ≡ some limit)
      × (((step op d).0.status ≡ failed) × (retries (step op d).1 ≡ 0)
          ⊎ (((step op d).0.attempts ≡ d.attempts + retries (step op d).1)
              × ((step op d).0.attempts ≤ limit)))
unfolding step handle_connection_lost handle_dial_failed handle_permanent_dial_failure set_connected
    reset_backoff check_retry mark_transport_pending
step-retries (lose jitter now cid) d limit e small r h = ground arith
step-retries reset d limit e small r h = cc
step-retries op d limit e small r h = ground arith

step-failed-retries :
    (op : Op) (d : DialerState)
    → d.status ≡ failed
    → ((step op d).0.status ≡ failed) × (retries (step op d).1 ≡ 0)
unfolding step handle_connection_lost handle_dial_failed handle_permanent_dial_failure set_connected
    reset_backoff check_retry mark_transport_pending
step-failed-retries reset d h = ground arith
step-failed-retries op d h = ground arith

failed-scheduled : (ops : List Op) (d : DialerState) → d.status ≡ failed → scheduled ops d ≡ 0
unfolding scheduled
failed-scheduled [] d h = refl
failed-scheduled (op ∷ ops) d h =
    let (f, z) = step-failed-retries op d h in omega (arith, failed-scheduled ops (step op d).0 f)

-- Without a completed handshake in between, a dialer whose limit is less than 2^32 - 1 schedules at
-- most as many retries as its limit leaves open, whatever is asked of it in whatever order.
pub scheduled-le-limit :
    (ops : List Op) (d : DialerState) (limit : ℕ)
    → d.backoff_config.max_retries ≡ some limit
    → limit + 1 < 2 ^ 32
    → NoReset ops
    → d.attempts ≤ limit
    → scheduled ops d + d.attempts ≤ limit
unfolding scheduled
scheduled-le-limit [] d limit e small r h = omega arith
scheduled-le-limit (op ∷ ops) d limit e small r h =
    let (kept, outcome) = step-retries op d limit e small r.0 h in
    elim outcome [
      | inl (f, z) ↦ omega (arith, failed-scheduled ops (step op d).0 f)
      | inr (more, below) ↦
          omega (arith, scheduled-le-limit ops (step op d).0 limit kept small r.1 below)
    ]

-- One round of a peer that cannot be reached: the dial fails at `now`, and the hub ticks when the
-- retry is due and asks for a transport again.
unfoldable pub round : (ℕ → ℕ) → ℕ → DialerState → DialerState
round jitter now d =
    run
      (fail_dial jitter now
        ∷ tick (compute_retry_time jitter now d.backoff_config (next_attempt d.attempts))
        ∷ mark_pending
        ∷ [])
      d

unfoldable pub rounds : List ((ℕ → ℕ) × ℕ) → DialerState → DialerState
rounds [] d = d
rounds ((jitter, now) ∷ rest) d = rounds rest (round jitter now d)

round_below :
    (jitter : ℕ → ℕ) (now limit : ℕ) (d : DialerState)
    → d.backoff_config.max_retries ≡ some limit
    → limit + 1 < 2 ^ 32
    → d.status ≡ transport_pending
    → d.attempts < limit
    → ((round jitter now d).status ≡ transport_pending)
      × ((round jitter now d).attempts ≡ d.attempts + 1)
      × ((round jitter now d).backoff_config ≡ d.backoff_config)
unfolding round run step handle_dial_failed check_retry mark_transport_pending
round_below jitter now limit d e small p h = ground arith

last_dial :
    (jitter : ℕ → ℕ) (now limit : ℕ) (d : DialerState)
    → d.backoff_config.max_retries ≡ some limit
    → limit + 1 < 2 ^ 32
    → d.status ≡ transport_pending
    → d.attempts ≡ limit
    → ((handle_dial_failed jitter now d).0.status ≡ failed)
      × ((handle_dial_failed jitter now d).1 ≡ max_retries_reached)
unfolding handle_dial_failed
last_dial jitter now limit d e small p h = ground arith

-- A dialer that cannot reach its peer, and whose limit is less than 2^32 - 1, dials again after each of
-- the retries that its limit leaves open, and then, at the next failed dial, fails for good and says
-- so.
pub gives_up_after_limit :
    (draws : List ((ℕ → ℕ) × ℕ)) (jitter : ℕ → ℕ) (now limit : ℕ) (d : DialerState)
    → d.backoff_config.max_retries ≡ some limit
    → limit + 1 < 2 ^ 32
    → d.status ≡ transport_pending
    → d.attempts + length draws ≡ limit
    → ((rounds draws d).status ≡ transport_pending)
      × ((handle_dial_failed jitter now (rounds draws d)).0.status ≡ failed)
      × ((handle_dial_failed jitter now (rounds draws d)).1 ≡ max_retries_reached)
unfolding rounds
gives_up_after_limit [] jitter now limit d e small p h =
    let (f, o) = last_dial jitter now limit d e small p (omega arith) in (p, f, o)
gives_up_after_limit ((j, t) ∷ rest) jitter now limit d e small p h =
    let (pending, more, same) = round_below j t limit d e small p (omega arith) in
    gives_up_after_limit rest jitter now limit (round j t d) (ground (arith, same)) small pending
      (omega arith)
