-- ===== src/Slack.antt =====
-- internal/notify/slack/resilience.go: the circuit breaker and the retries of notifications. Times are
-- nanoseconds; the inner notifier and the context are parameters.
pub mod Breaker
use health_monitor_sre_engin.Common.{
  ℕ, zero, suc, ◌+◌, ◌-◌, ◌*◌, leb, ltb, Bool, true, false, ◌&&◌, Option, none, some, List, [], ◌∷◌,
  if◌then◌else◌,
}

pub data CircuitState : Type 0 where
  state_closed state_open state_half_open : CircuitState

pub record CircuitBreaker : Type 0 where
  pub state : CircuitState
  pub fail_count : ℕ
  pub threshold : ℕ
  pub reset_timeout : ℕ
  pub last_failure : ℕ

-- NewCircuitBreaker; the zero time is 0
abbrev pub new_circuit_breaker : ℕ → ℕ → CircuitBreaker
new_circuit_breaker threshold reset_timeout = record {
  state = state_closed;
  fail_count = 0;
  threshold = threshold;
  reset_timeout = reset_timeout;
  last_failure = 0;
}

-- allowRequest, at the time `now`
unfoldable pub allow_request : ℕ → CircuitBreaker → Bool
allow_request now cb = elim cb.state [
  | state_closed ↦ true
  | state_open ↦ ltb (cb.last_failure + cb.reset_timeout) now
  | state_half_open ↦ true
]

abbrev is_closed : CircuitState → Bool
is_closed state_closed = true
is_closed _ = false

-- recordResult, of an error or of a success
unfoldable pub record_result : ℕ → Bool → CircuitBreaker → CircuitBreaker
record_result now failed cb =
    if failed
    then (if leb cb.threshold (cb.fail_count + 1)
        then record cb { fail_count = cb.fail_count + 1; last_failure = now; state = state_open }
        else record cb { fail_count = cb.fail_count + 1; last_failure = now })
    else if is_closed cb.state
    then cb
    else record cb { state = state_closed; fail_count = 0 }

pub data NotifyError : Type 0 where
  breaker_open cancelled inner_failed : NotifyError

abbrev has_failed : Option NotifyError → Bool
has_failed none = false
has_failed (some e) = true

-- Execute: `fn` is called with `asked`, and the result is recorded at the time `ended`
unfoldable pub execute :
    {S : Type 0}
    → ℕ
    → ℕ
    → (S → Option NotifyError × S)
    → CircuitBreaker
    → S
    → Option NotifyError × CircuitBreaker × S
execute asked ended fn cb s =
    if allow_request asked cb
    then (let (e, s') = fn s in (e, record_result ended (has_failed e) cb, s'))
    else (some breaker_open, cb, s)

-- What the inner notifier and the context do: whether the n-th call fails, and whether the context is
-- done before the wait that precedes it is over.
pub record Inner : Type 0 where
  pub fails : ℕ → Bool
  pub is_done : ℕ → Bool

-- the calls made, and the time waited
pub record Tried : Type 0 where
  pub calls : ℕ
  pub waited : ℕ

-- The loop of Notify: attempt `i` with `left` more after it; `backoff` is the wait before the next.
unfoldable pub attempts : Inner → ℕ → ℕ → ℕ → Tried → Option NotifyError × Tried
attempts inner zero i backoff t =
    ((if inner.fails i then some inner_failed else none), record t { calls = t.calls + 1 })
attempts inner (suc left) i backoff t =
    let made = record t { calls = t.calls + 1 } in
    let again =
      attempts inner left (i + 1) (2 * backoff) (record made { waited = made.waited + backoff }) in
    if inner.fails i
    then (if inner.is_done (i + 1) then (some cancelled, made) else again)
    else (none, made)

abbrev pub second : ℕ
second = 1000000000

-- ResilientNotifier.Notify, for a number of retries that is not negative
unfoldable pub notify :
    ℕ → ℕ → ℕ → Inner → CircuitBreaker → Option NotifyError × CircuitBreaker × Tried
notify max_retries asked ended inner cb =
    execute asked ended (attempts inner max_retries 0 second) cb (record { calls = 0; waited = 0 })
