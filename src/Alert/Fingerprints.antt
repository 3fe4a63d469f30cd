-- ===== src/Alert/Fingerprints.antt =====
-- internal/alert/handler.go: the labels of an alert, its key, and the cache of keys that suppresses
-- duplicates. sha256 with its hexadecimal form is the parameter `digest`. Times are nanoseconds and
-- now.Sub(ts) <= ttl is written without the difference, which may be negative.
pub mod Window
use Prim.Native.String
use health_monitor_sre_engin.Common.{
  ℕ, ◌+◌, ◌≤◌, ◌<◌, leb, ltb, String, Bool, true, false, not, Option, none, some, List, [], ◌∷◌,
  map, ◌≡◌, ◌≢◌, refl, if◌then◌else◌, str_eq, is_empty, trim_space, to_lower, Dict, lookup, insert,
  text_at, lookup-insert, filter, arith, eq_iff, eq_refl,
}
use health_monitor_sre_engin.Flow.{sort_texts}
use health_monitor_sre_engin.Alert.{Alert}

-- the loop of normalizeLabels
unfoldable pub add_labels : Dict String → Dict String → Dict String
unfolding trim_space to_lower insert
add_labels [] out = out
add_labels ((key, value) ∷ rest) out =
    let k = to_lower (trim_space key) in
    add_labels rest (if is_empty k then out else insert k (trim_space value) out)

-- normalizeLabels
unfoldable pub normalize_labels : Dict String → Dict String
unfolding add_labels
normalize_labels labels = add_labels labels []

unfoldable pub label_text : List String → Dict String → String
unfolding text_at
label_text [] labels = ""
label_text (k ∷ ks) labels =
    String.◌++◌ "|"
      (String.◌++◌ k (String.◌++◌ "=" (String.◌++◌ (text_at k labels) (label_text ks labels))))

-- hashLabels
unfoldable pub hash_labels : (String → String) → String → String → Dict String → String
unfolding label_text sort_texts
hash_labels digest alert_name service labels = digest (
    String.◌++◌ alert_name (
      String.◌++◌ "|"
        (String.◌++◌ service (label_text (sort_texts (map (λ p. p.0) labels)) labels))))

-- fingerprintKey
unfoldable pub fingerprint_key : (String → String) → Alert → Dict String → String
unfolding trim_space text_at hash_labels
fingerprint_key digest alert labels =
    let given = trim_space alert.fingerprint in
    let alert_name = text_at "alertname" labels in
    let service = text_at "service" labels in
    if not (is_empty given)
    then given
    else if is_empty alert_name
    then ""
    else if is_empty service
    then ""
    else hash_labels digest alert_name service labels

-- prune
unfoldable pub prune : ℕ → ℕ → Dict ℕ → Dict ℕ
unfolding filter
prune ttl now entries = if leb ttl 0 then entries else filter (λ e. leb now (e.1 + ttl)) entries

abbrev fresh : ℕ → ℕ → Option ℕ → Bool
fresh ttl now none = false
fresh ttl now (some t) = leb now (t + ttl)

-- FingerprintCache.Seen: the answer, and the entries after it
unfoldable pub seen : ℕ → String → ℕ → Dict ℕ → Bool × Dict ℕ
unfolding prune lookup insert
seen ttl key now entries =
    let kept = prune ttl now entries in
    if is_empty key
    then (false, entries)
    else if fresh ttl now (lookup key kept)
    then (true, kept)
    else (false, insert key now kept)
