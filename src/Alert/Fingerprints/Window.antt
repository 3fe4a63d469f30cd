-- ===== src/Alert/Fingerprints/Window.antt =====
-- The cache of keys: how long a key that has been accepted is suppressed.
use health_monitor_sre_engin.Common.{
  ℕ, ◌+◌, ◌≤◌, String, true, false, some, List, [], ◌∷◌, ◌≡◌, is_empty, Dict, lookup, lookup-insert,
  filter, All, arith, eq_iff, eq_refl,
}
use health_monitor_sre_engin.Alert.Fingerprints.{prune, seen}

-- the time of a call that is recorded stays so while it is fresh
lookup-prune :
    (ttl now t : ℕ) (key : String) (m : Dict ℕ)
    → lookup key m ≡ some t
    → now ≤ t + ttl
    → lookup key (prune ttl now m) ≡ some t
unfolding prune lookup filter
lookup-prune ttl now t key [] h k = cc
lookup-prune ttl now t key ((j, v) ∷ m) h k =
    ground (arith, lookup-prune ttl now t key m, eq_iff j key)

-- later calls of Seen, with their keys and times
unfoldable pub after_calls : ℕ → List (String × ℕ) → Dict ℕ → Dict ℕ
after_calls ttl [] m = m
after_calls ttl ((key, now) ∷ rest) m = after_calls ttl rest (seen ttl key now m).1

seen-keeps :
    (ttl now t : ℕ) (key other : String) (m : Dict ℕ)
    → lookup key m ≡ some t
    → now ≤ t + ttl
    → lookup key (seen ttl other now m).1 ≡ some t
unfolding seen
seen-keeps ttl now t key other m h k = ground (
  arith,
  lookup-prune ttl now t key m h k,
  lookup-insert other key now (prune ttl now m),
  eq_iff other key,
)

after_calls-keeps :
    (ttl t : ℕ) (key : String) (calls : List (String × ℕ)) (m : Dict ℕ)
    → lookup key m ≡ some t
    → All (λ c. c.1 ≤ t + ttl) calls
    → lookup key (after_calls ttl calls m) ≡ some t
unfolding after_calls
after_calls-keeps ttl t key [] m h k = h
after_calls-keeps ttl t key ((other, now) ∷ rest) m h k =
    after_calls-keeps ttl t key rest (seen ttl other now m).1
      (seen-keeps ttl now t key other m h k.0) k.1

accepted_recorded :
    (ttl now : ℕ) (key : String) (m : Dict ℕ)
    → is_empty key ≡ false
    → (seen ttl key now m).0 ≡ false
    → lookup key (seen ttl key now m).1 ≡ some now
unfolding seen
accepted_recorded ttl now key m h k =
    ground (arith, lookup-insert key key now (prune ttl now m), eq_refl key)

recorded_seen :
    (ttl now t : ℕ) (key : String) (m : Dict ℕ)
    → is_empty key ≡ false
    → lookup key m ≡ some t
    → now ≤ t + ttl
    → (seen ttl key now m).0 ≡ true
unfolding seen
recorded_seen ttl now t key m n h k = ground (arith, lookup-prune ttl now t key m h k)

-- A key that is not empty and has been accepted at time t is suppressed at every time up to the interval
-- after t, whatever other calls with times in that window come between.
pub accepted_once :
    (ttl t now : ℕ) (key : String) (calls : List (String × ℕ)) (m : Dict ℕ)
    → is_empty key ≡ false
    → (seen ttl key t m).0 ≡ false
    → All (λ c. c.1 ≤ t + ttl) calls
    → now ≤ t + ttl
    → (seen ttl key now (after_calls ttl calls (seen ttl key t m).1)).0 ≡ true
accepted_once ttl t now key calls m n a h k =
    recorded_seen ttl now t key _ n
      (after_calls-keeps ttl t key calls (seen ttl key t m).1 (accepted_recorded ttl t key m n a) h)
      k
