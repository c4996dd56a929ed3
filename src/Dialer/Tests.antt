-- ===== src/Dialer/Tests.antt =====
-- Runs of the dialer on concrete input, with the configuration of `BackoffConfig::default()`.
use samod.Prelude.{ℕ, ◌+◌, ◌*◌, ◌/◌, ◌^◌, ◌≤◌, ◌≡◌, refl, ◌⊎◌, List, [], ◌∷◌, some, arith}
use samod.Dialer.{
  BackoffConfig, DialerState, transport_pending, failed, capped_delay, base_delay,
  compute_retry_time, handle_permanent_dial_failure, set_connected, mark_transport_pending,
  check_retry, handle_dial_failed, handle_connection_lost, max_retries_reached,
}
use samod.Dialer.Backoff.{capped_delay_closed}
use samod.Dialer.Machine.{
  Op, lose, fail_dial, fail_forever, connect, reset, tick, mark_pending, step, run, Edge, step-Edge,
  run-failed,
}
use samod.Dialer.Retries.{scheduled, scheduled-le-limit, rounds, gives_up_after_limit}

abbrev thrice : BackoffConfig
thrice = record { initial_delay = 100 * 10 ^ 6; max_delay = 30 * 10 ^ 9; max_retries = some 3 }

abbrev dialling : DialerState
dialling = record {
  dialer_id = 7;
  url = "wss://sync.example.com";
  backoff_config = thrice;
  status = transport_pending;
  attempts = 0;
}

abbrev three_quarters : ℕ → ℕ
three_quarters m = m * 3 / 4

fourth_delay : capped_delay thrice 4 ≡ 800 * 10 ^ 6
unfolding capped_delay base_delay
fourth_delay = refl

fourth_retry : compute_retry_time three_quarters 1000 thrice 4 ≡ 1600
unfolding compute_retry_time capped_delay base_delay
fourth_retry = refl

capped_delay_closed_example : capped_delay thrice 4 ≡ 800 * 10 ^ 6
capped_delay_closed_example = capped_delay_closed thrice 3 (omega arith) (omega arith)

step-Edge_example :
    ((step (fail_dial three_quarters 5) dialling).0.status ≡ transport_pending)
    ⊎ Edge transport_pending (step (fail_dial three_quarters 5) dialling).0.status
step-Edge_example = step-Edge (fail_dial three_quarters 5) dialling

abbrev hopeless : DialerState
hopeless = record dialling { status = failed }

run-failed_example :
    (run (mark_pending ∷ tick 900 ∷ connect 4 ∷ reset ∷ []) hopeless).status ≡ failed
run-failed_example = run-failed (mark_pending ∷ tick 900 ∷ connect 4 ∷ reset ∷ []) hopeless refl

abbrev bad_day : List Op
bad_day =
    fail_dial three_quarters 0
    ∷ tick 500
    ∷ mark_pending
    ∷ connect 4
    ∷ lose three_quarters 600 4
    ∷ fail_forever
    ∷ []

scheduled-le-limit_example : scheduled bad_day dialling + 0 ≤ 3
scheduled-le-limit_example =
    scheduled-le-limit bad_day dialling 3 refl (omega arith)
      (refl, (refl, (refl, (refl, (refl, (refl, tt)))))) (omega arith)

bad_day_retries : scheduled bad_day dialling ≡ 2
unfolding scheduled step handle_dial_failed handle_connection_lost handle_permanent_dial_failure
    set_connected mark_transport_pending check_retry compute_retry_time capped_delay base_delay
bad_day_retries = refl

abbrev failing_dials : List ((ℕ → ℕ) × ℕ)
failing_dials = (three_quarters, 0) ∷ (three_quarters, 500) ∷ (three_quarters, 900) ∷ []

gives_up_after_limit_example :
    ((rounds failing_dials dialling).status ≡ transport_pending)
    × ((handle_dial_failed three_quarters 2000 (rounds failing_dials dialling)).0.status ≡ failed)
    × ((handle_dial_failed three_quarters 2000 (rounds failing_dials dialling)).1
        ≡ max_retries_reached)
gives_up_after_limit_example =
    gives_up_after_limit failing_dials three_quarters 2000 3 dialling refl (omega arith) refl
      (omega arith)
