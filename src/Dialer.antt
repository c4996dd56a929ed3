-- ===== src/Dialer.antt =====
-- A dialer: an outgoing connection with reconnection (samod-core/src/actors/hub/dialer.rs, and
-- `BackoffConfig` of samod-core/src/network/connector_config.rs). Durations are in nanoseconds and
-- times in milliseconds. The random draw of a call is an argument, the map that takes a delay `d`
-- to `(d as f64 * jitter) as u64`.
pub mod Backoff
pub mod Machine
pub mod Retries
mod Tests
use samod.Prelude.{
  ℕ, ◌+◌, ◌-◌, ◌*◌, ◌/◌, ◌%◌, ◌^◌, min, String, ◌≡◌, Bool, true, false, Option, none, some, leb,
  ltb, ◌==◌, nat_eq, if◌then◌else◌,
}

pub record BackoffConfig : Type 0 where
  pub initial_delay : ℕ
  pub max_delay : ℕ
  pub max_retries : Option ℕ

pub data DialerStatus : Type 0 where
  need_transport : DialerStatus
  transport_pending : DialerStatus
  connected : ℕ → DialerStatus
  waiting_to_retry : ℕ → DialerStatus
  failed : DialerStatus

pub record DialerState : Type 0 where
  pub dialer_id : ℕ
  pub url : String
  pub backoff_config : BackoffConfig
  pub status : DialerStatus
  pub attempts : ℕ

pub data ConnectionLostOutcome : Type 0 where
  not_ours : ConnectionLostOutcome
  will_retry : ℕ → ConnectionLostOutcome
  max_retries_reached : ConnectionLostOutcome

abbrev pub new : ℕ → String → BackoffConfig → DialerState
new dialer_id url backoff = record {
  dialer_id = dialer_id;
  url = url;
  backoff_config = backoff;
  status = need_transport;
  attempts = 0;
}

-- `Duration::MAX`, and the largest `u32`.
abbrev pub duration_max : ℕ
duration_max = 2 ^ 64 * 10 ^ 9 - 1

abbrev pub u32_max : ℕ
u32_max = 2 ^ 32 - 1

-- `initial_delay.saturating_mul(2u32.saturating_pow(attempts.saturating_sub(1)))`
pub base_delay : BackoffConfig → ℕ → ℕ
base_delay config attempts =
    min (config.initial_delay * min (2 ^ (attempts - 1)) u32_max) duration_max

pub capped_delay : BackoffConfig → ℕ → ℕ
capped_delay config attempts = min (base_delay config attempts) config.max_delay

unfoldable pub compute_retry_time : (ℕ → ℕ) → ℕ → BackoffConfig → ℕ → ℕ
compute_retry_time jitter now config attempts = now + jitter (capped_delay config attempts / 10 ^ 6)

-- `self.attempts += 1` on a `u32`
abbrev pub next_attempt : ℕ → ℕ
next_attempt attempts = (attempts + 1) % 2 ^ 32

abbrev exceeds : Option ℕ → ℕ → Bool
exceeds none attempts = false
exceeds (some limit) attempts = ltb limit attempts

-- The part that `handle_connection_lost` and `handle_dial_failed` share: the lines below the
-- check of the status.
unfoldable pub retry_or_fail : (ℕ → ℕ) → ℕ → DialerState → DialerState × ConnectionLostOutcome
retry_or_fail jitter now d =
    let attempts = next_attempt d.attempts in
    let retry_at = compute_retry_time jitter now d.backoff_config attempts in
    if exceeds d.backoff_config.max_retries attempts
    then (record d { attempts = attempts; status = failed }, max_retries_reached)
    else (record d { attempts = attempts; status = waiting_to_retry retry_at }, will_retry retry_at)

abbrev pub is_connected_to : DialerStatus → ℕ → Bool
is_connected_to (connected cid) connection_id = cid == connection_id
is_connected_to _ connection_id = false

abbrev pub is_transport_pending : DialerStatus → Bool
is_transport_pending transport_pending = true
is_transport_pending _ = false

unfoldable pub handle_connection_lost :
    (ℕ → ℕ) → ℕ → ℕ → DialerState → DialerState × ConnectionLostOutcome
unfolding retry_or_fail
handle_connection_lost jitter now connection_id d =
    if is_connected_to d.status connection_id then retry_or_fail jitter now d else (d, not_ours)

unfoldable pub handle_dial_failed : (ℕ → ℕ) → ℕ → DialerState → DialerState × ConnectionLostOutcome
unfolding retry_or_fail
handle_dial_failed jitter now d =
    if is_transport_pending d.status then retry_or_fail jitter now d else (d, not_ours)

unfoldable pub handle_permanent_dial_failure : DialerState → DialerState × Bool
handle_permanent_dial_failure d =
    if is_transport_pending d.status then (record d { status = failed }, true) else (d, false)

unfoldable pub set_connected : ℕ → DialerState → DialerState × Bool
set_connected connection_id d =
    if is_transport_pending d.status
    then (record d { status = connected connection_id }, true)
    else (d, false)

unfoldable pub reset_backoff : DialerState → DialerState
reset_backoff d = record d { attempts = 0 }

abbrev retry_is_due : DialerStatus → ℕ → Bool
retry_is_due (waiting_to_retry retry_at) now = leb retry_at now
retry_is_due _ now = false

unfoldable pub check_retry : ℕ → DialerState → DialerState × Bool
check_retry now d =
    if retry_is_due d.status now then (record d { status = need_transport }, true) else (d, false)

abbrev needs_transport : DialerStatus → Bool
needs_transport need_transport = true
needs_transport _ = false

unfoldable pub mark_transport_pending : DialerState → DialerState × Bool
mark_transport_pending d =
    if needs_transport d.status then (record d { status = transport_pending }, true) else (d, false)

abbrev active_of : DialerStatus → Option ℕ
active_of (connected connection_id) = some connection_id
active_of _ = none

abbrev pub active_connection : DialerState → Option ℕ
active_connection d = active_of d.status
