-- ===== src/Tests/Services.antt =====
-- The theorems on the circuit breaker and the retries, at concrete inputs.
use health_monitor_sre_engin.Common.{ℕ, ◌+◌, Bool, true, false, List, [], ◌∷◌, ◌≡◌, refl}
use health_monitor_sre_engin.Slack.{
  state_closed, state_open, CircuitBreaker, new_circuit_breaker, allow_request, record_result,
  Inner,
}
use health_monitor_sre_engin.Slack.Breaker.{record_all, failures, breaker-trips_on_total}

abbrev mixed : List (ℕ × Bool)
mixed = (1, true) ∷ (2, false) ∷ (3, false) ∷ (4, true) ∷ (5, false) ∷ []

two_failures : failures mixed + 1 ≡ 3
unfolding failures
two_failures = refl

breaker-trips_on_total_example :
    ((record_all mixed (new_circuit_breaker 3 60)).state ≡ state_closed)
    × ((record_result 6 true (record_all mixed (new_circuit_breaker 3 60))).state ≡ state_open)
breaker-trips_on_total_example = breaker-trips_on_total 3 60 6 mixed two_failures

abbrev down : Inner
down = record { fails = λ n. true; is_done = λ n. false }

let_pass : allow_request 0 (new_circuit_breaker 3 60) ≡ true
unfolding allow_request
let_pass = refl

abbrev tripped : CircuitBreaker
tripped = record {
  state = state_open;
  fail_count = 3;
  threshold = 3;
  reset_timeout = 60;
  last_failure = 100;
}
