-- ===== src/Slack/Breaker.antt =====
-- The circuit breaker over a sequence of results, and the calls of a notification.
use native.Mathlib.Numerals.{unary_clauses}
use health_monitor_sre_engin.Common.{
  ℕ, zero, suc, ◌+◌, ◌*◌, ◌^◌, ◌≤◌, ◌<◌, Bool, true, false, some, List, [], ◌∷◌, ◌≡◌, refl, ◌∙◌, ap,
  if◌then◌else◌, arith,
}
use health_monitor_sre_engin.Slack.{
  state_closed, state_open, CircuitBreaker, new_circuit_breaker, allow_request, record_result,
  breaker_open, inner_failed, execute, Inner, Tried, attempts, second, notify,
}

-- results with their times, in order
unfoldable pub record_all : List (ℕ × Bool) → CircuitBreaker → CircuitBreaker
record_all [] cb = cb
record_all ((now, failed) ∷ rest) cb = record_all rest (record_result now failed cb)

unfoldable pub failures : List (ℕ × Bool) → ℕ
failures [] = 0
failures ((now, failed) ∷ rest) = (if failed then 1 else 0) + failures rest

success_kept :
    (now : ℕ) (cb : CircuitBreaker) → cb.state ≡ state_closed → record_result now false cb ≡ cb
unfolding record_result
success_kept now cb h = rw h refl

failure_counted :
    (now : ℕ) (cb : CircuitBreaker)
    → cb.state ≡ state_closed
    → cb.fail_count + 1 < cb.threshold
    → ((record_result now true cb).state ≡ state_closed)
      × ((record_result now true cb).fail_count ≡ cb.fail_count + 1)
      × ((record_result now true cb).threshold ≡ cb.threshold)
unfolding record_result
failure_counted now cb h k = ground arith

failure_trips :
    (now : ℕ) (cb : CircuitBreaker)
    → cb.threshold ≤ cb.fail_count + 1
    → (record_result now true cb).state ≡ state_open
unfolding record_result
failure_trips now cb h = ground arith

counted :
    (rs : List (ℕ × Bool)) (cb : CircuitBreaker)
    → cb.state ≡ state_closed
    → cb.fail_count + failures rs < cb.threshold
    → ((record_all rs cb).state ≡ state_closed)
      × ((record_all rs cb).fail_count ≡ cb.fail_count + failures rs)
      × ((record_all rs cb).threshold ≡ cb.threshold)
unfolding record_all failures
counted [] cb h k = (h, omega arith, refl)
counted ((now, true) ∷ rest) cb h k =
    let c = record_result now true cb in
    let f = failure_counted now cb h (omega (arith, k)) in
    let r = counted rest c f.0 (omega (arith, k, f.1, f.2)) in
    (r.0, omega (arith, r.1, f.1), r.2 ∙ f.2)
counted ((now, false) ∷ rest) cb h k =
    let e = success_kept now cb h in
    let c = record_result now false cb in
    let r =
      counted rest c (ap (λ x. x.state) e ∙ h)
        (omega (arith, k, ap (λ x. x.fail_count) e, ap (λ x. x.threshold) e)) in
    (r.0, omega (arith, r.1, ap (λ x. x.fail_count) e), r.2 ∙ ap (λ x. x.threshold) e)

-- A new breaker is closed until its failures add up to the threshold, and open at the failure with which
-- they do, however many successes lie between them: a success in the closed state does not reset the
-- count.
pub breaker-trips_on_total :
    (threshold timeout now : ℕ) (rs : List (ℕ × Bool))
    → failures rs + 1 ≡ threshold
    → ((record_all rs (new_circuit_breaker threshold timeout)).state ≡ state_closed)
      × ((record_result now true (record_all rs (new_circuit_breaker threshold timeout))).state
          ≡ state_open)
breaker-trips_on_total threshold timeout now rs h =
    let cb = new_circuit_breaker threshold timeout in
    let c = counted rs cb refl (omega (arith, h)) in
    (c.0, failure_trips now (record_all rs cb) (omega (arith, h, c.1, c.2)))

refuses :
    (asked : ℕ) (cb : CircuitBreaker)
    → cb.state ≡ state_open
    → asked ≤ cb.last_failure + cb.reset_timeout
    → allow_request asked cb ≡ false
unfolding allow_request
refuses asked cb h k = ground arith

attempts-calls :
    (inner : Inner) (left i backoff : ℕ) (t : Tried)
    → (t.calls < (attempts inner left i backoff t).1.calls)
      × ((attempts inner left i backoff t).1.calls ≤ t.calls + left + 1)
unfolding attempts
attempts-calls inner zero i backoff t = ground arith
attempts-calls inner (suc left) i backoff t = ground (
  arith,
  attempts-calls inner left (i + 1) (2 * backoff)
      (record t { calls = t.calls + 1; waited = t.waited + backoff }),
)

-- A notification calls the inner notifier at most once more than its retries, and at least once where the
-- breaker lets it pass.
pub notify-calls :
    (max_retries asked ended : ℕ) (inner : Inner) (cb : CircuitBreaker)
    → allow_request asked cb ≡ true
    → (0 < (notify max_retries asked ended inner cb).2.calls)
      × ((notify max_retries asked ended inner cb).2.calls ≤ max_retries + 1)
unfolding notify execute
notify-calls max_retries asked ended inner cb h =
    let c = attempts-calls inner max_retries 0 second (record { calls = 0; waited = 0 }) in
    rw h (c.0, omega (arith, c.1))

-- Within the reset timeout after the last failure of an open breaker, a notification fails at once: the
-- inner notifier is not called and the breaker stays as it is.
pub notify-refused :
    (max_retries asked ended : ℕ) (inner : Inner) (cb : CircuitBreaker)
    → cb.state ≡ state_open
    → asked ≤ cb.last_failure + cb.reset_timeout
    → notify max_retries asked ended inner cb
      ≡ (some breaker_open, cb, record { calls = 0; waited = 0 })
unfolding notify execute
notify-refused max_retries asked ended inner cb h k = rw (refuses asked cb h k) refl

retried :
    (inner : Inner) (left i backoff : ℕ) (t : Tried)
    → inner.fails i ≡ true
    → inner.is_done (i + 1) ≡ false
    → attempts inner (suc left) i backoff t
      ≡ attempts inner left
          (i + 1)
          (2 * backoff)
          (record t { calls = t.calls + 1; waited = t.waited + backoff })
unfolding attempts
retried inner left i backoff t f d = rw (f, d) refl

last_attempt :
    (inner : Inner) (i backoff : ℕ) (t : Tried)
    → inner.fails i ≡ true
    → ((attempts inner zero i backoff t).0 ≡ some inner_failed)
      × ((attempts inner zero i backoff t).1.calls ≡ t.calls + zero + 1)
      × ((attempts inner zero i backoff t).1.waited + backoff ≡ t.waited + backoff * 2 ^ zero)
unfolding attempts
last_attempt inner i backoff t f = rw f (refl, omega arith, omega arith)

doubled : (b n : ℕ) → 2 * b * 2 ^ n ≡ b * 2 ^ suc n
doubled b n = grind (arith, unary_clauses)

-- Where every call fails and the context is never done, the loop makes all its attempts and then returns
-- the inner error; its waits double each time, so that with the first wait `backoff` they add up to
-- `backoff` * (2 ^ left - 1).
pub attempts-backoff :
    (inner : Inner) (left i backoff : ℕ) (t : Tried)
    → ((n : ℕ) → inner.fails n ≡ true)
    → ((n : ℕ) → inner.is_done n ≡ false)
    → ((attempts inner left i backoff t).0 ≡ some inner_failed)
      × ((attempts inner left i backoff t).1.calls ≡ t.calls + left + 1)
      × ((attempts inner left i backoff t).1.waited + backoff ≡ t.waited + backoff * 2 ^ left)
attempts-backoff inner zero i backoff t f d = last_attempt inner i backoff t (f i)
attempts-backoff inner (suc left) i backoff t f d =
    let t' = record t { calls = t.calls + 1; waited = t.waited + backoff } in
    let r = attempts-backoff inner left (i + 1) (2 * backoff) t' f d in
    let e = retried inner left i backoff t (f i) (d (i + 1)) in
    (
      ap (λ x. x.0) e ∙ r.0,
      omega (arith, r.1, ap (λ x. x.1.calls) e),
      omega (arith, r.2, ap (λ x. x.1.waited) e, doubled backoff left),
    )
