-- ===== src/Slo/Queries.antt =====
-- The queries of internal/slo/service.go: formatQuery, and the query of an earlier window.
use Prim.Native.String
use Prim.Native.String.{[], ◌∷◌}
use health_monitor_sre_engin.Common.{
  ℕ, ◌-◌, ◌*◌, ◌%◌, ◌^◌, String, Bool, false, not, ◌&&◌, ◌||◌, Option, none, some, List, [], ◌∷◌, ℤ,
  pos, negsuc, is_positive, ltb, is_empty, ◌≡◌, refl, if◌then◌else◌, contains, has_prefix, to_lower,
  trim_space, split, join, map,
}

-- a text holds one of the terms
unfoldable pub holds_one : List String → String → Bool
holds_one [] s = false
holds_one (t ∷ ts) s = contains s t || holds_one ts s

abbrev pub gauge_indicators : List String
gauge_indicators =
    "in_flight" ∷ "current" ∷ "active" ∷ "total_bytes" ∷ "system_bytes" ∷ "limit" ∷ "capacity"
    ∷ "usage" ∷ "up" ∷ "health" ∷ []

abbrev pub counter_indicators : List String
counter_indicators = "_total" ∷ "_count" ∷ "_sum" ∷ "_bucket" ∷ []

unfoldable pub is_gauge : String → Bool
is_gauge query =
    let lower = to_lower query in
    holds_one gauge_indicators lower && not (holds_one counter_indicators lower)

-- the text applies one of the functions already
unfoldable pub is_wrapped : String → Bool
is_wrapped part = contains part "sum(" || (contains part "rate(" || contains part "avg_over_time(")

unfoldable pub wrap : Bool → String → String → String
wrap gauge window part =
    let ranged = String.◌++◌ part (String.◌++◌ "[" window) in
    if is_wrapped part
    then part
    else if gauge
    then String.◌++◌ "avg_over_time(" (String.◌++◌ ranged "])")
    else String.◌++◌ "sum(rate(" (String.◌++◌ ranged "]))")

-- strings.TrimPrefix and strings.TrimSuffix with a parenthesis
unfoldable pub trim_open : String → String
trim_open [] = ""
trim_open (c ∷ s) = if has_prefix (c ∷ s) "(" then s else c ∷ s

unfoldable pub trim_close : String → String
trim_close [] = ""
trim_close (c ∷ s) =
    let rest = trim_close s in if has_prefix (c ∷ s) ")" && is_empty s then "" else c ∷ rest

-- formatQuery
unfoldable pub format_query : String → String → String
format_query query window =
    let gauge = is_gauge query in
    let parts = split (trim_close (trim_open (trim_space query))) " or " in
    if not (contains query " or ")
    then wrap gauge window query
    else String.◌++◌ "("
        (String.◌++◌ (join (map (λ p. wrap gauge window (trim_space p)) parts) " or ") ")")

-- the query of getPreviousRatio
unfoldable pub offset_query : String → String → String
offset_query query window = String.◌++◌ "sum(rate(" (
    String.◌++◌ query
      (String.◌++◌ "[" (String.◌++◌ window (String.◌++◌ "] offset " (String.◌++◌ window "))")))))

-- The last byte of a text is cut off: strings.TrimSuffix after strings.HasSuffix, with a suffix of one byte.
unfoldable pub cut_last : String → String
cut_last [] = ""
cut_last (c ∷ s) = let rest = cut_last s in if is_empty s then "" else c ∷ rest

-- strings.HasSuffix with a suffix of one byte
unfoldable pub ends_in : String → String → Bool
ends_in [] suffix = false
ends_in (c ∷ s) suffix = if is_empty s then has_prefix (c ∷ s) suffix else ends_in s suffix

-- time.ParseDuration, and fmt.Sscanf with %d into an int that is 0 before
pub record Scanner : Type 0 where
  pub parse_duration : String → Option ℤ
  pub scan_int : String → ℤ

-- a whole number of nanoseconds as an int64
unfoldable pub wrap_int : ℕ → ℤ
wrap_int n = let m = n % 2 ^ 64 in if ltb m (2 ^ 63) then pos m else negsuc (2 ^ 64 - m - 1)

abbrev pub hour : ℕ
hour = 3600 * 1000000000

abbrev pub quarter : ℤ
quarter = pos (15 * 60 * 1000000000)

-- val * multiplier, and a quarter of an hour unless val is positive
unfoldable pub scaled : ℤ → ℕ → ℤ
scaled (pos n) multiplier = if is_positive (pos n) then wrap_int (n * multiplier) else quarter
scaled (negsuc n) multiplier = quarter

-- parsePrometheusWindow after time.ParseDuration has failed
unfoldable pub parse_units : Scanner → String → ℤ
parse_units scanner window =
    let val = scanner.scan_int (cut_last window) in
    if ends_in window "d"
    then scaled val (24 * hour)
    else if ends_in window "w"
    then scaled val (7 * 24 * hour)
    else if ends_in window "y"
    then scaled val (365 * 24 * hour)
    else quarter

abbrev pub or_units : Scanner → String → Option ℤ → ℤ
or_units scanner window (some d) = d
or_units scanner window none = parse_units scanner (to_lower (trim_space window))

-- parsePrometheusWindow
unfoldable pub parse_prometheus_window : Scanner → String → ℤ
parse_prometheus_window scanner window =
    if is_empty window then quarter else or_units scanner window (scanner.parse_duration window)

counter : format_query "requests_total" "5m" ≡ "sum(rate(requests_total[5m]))"
unfolding format_query is_gauge wrap is_wrapped holds_one to_lower contains
counter = refl

either : format_query "(a_total or sum(b))" "5m" ≡ "(sum(rate(a_total[5m])) or sum(b))"
unfolding format_query is_gauge wrap is_wrapped holds_one to_lower contains trim_open trim_close
    split join trim_space
either = refl

abbrev thirty : Scanner
thirty = record { parse_duration = λ text. none; scan_int = λ text. pos 30 }

days : parse_prometheus_window thirty "30d" ≡ pos (30 * 24 * hour)
unfolding parse_prometheus_window parse_units scaled wrap_int cut_last ends_in to_lower trim_space
    has_prefix
days = refl
