-- ===== src/Alert/Mapping.antt =====
-- internal/alert/mapping.go: from the rules of a file to the rules of the processor; and matchRule
-- and ruleMatches of internal/alert/handler.go. Reading files and YAML is left out.
pub mod Rules
use health_monitor_sre_engin.Common.{
  String, Bool, true, false, ◌&&◌, ◌||◌, Option, none, some, List, [], ◌∷◌, ◌≡◌, ◌≢◌, ◌⊎◌, inl, inr,
  refl, sym, ap, subst, if◌then◌else◌, str_eq, is_empty, is_nil, trim_space, to_lower, Dict, lookup,
  insert, text_at, lookup-insert, find, find_passes, All, arith, eq_iff, Bool-cases,
}
use health_monitor_sre_engin.Incident.{Severity}
use health_monitor_sre_engin.Incident.Ranks.{parse_severity}
use health_monitor_sre_engin.Alert.{Mode, mode_suggest, mode_auto, Rule}

pub record RuleConfig : Type 0 where
  pub match : Dict String
  pub severity : String
  pub title : String
  pub mode : String

pub data RuleError : Type 0 where
  empty_match empty_key service_required bad_severity bad_mode : RuleError
  empty_value : String → RuleError

pub data Match : Type 0 where
  clean : Dict String → Match
  bad_match : RuleError → Match

-- the loop of normalizeMatch, over the entries in the order of the map
unfoldable pub clean_match : Dict String → Dict String → Match
unfolding trim_space to_lower insert
clean_match [] done = clean done
clean_match ((key, value) ∷ rest) done =
    let k = to_lower (trim_space key) in
    let v = trim_space value in
    let after = clean_match rest (insert k v done) in
    if is_empty k
    then bad_match empty_key
    else if is_empty v
    then bad_match (empty_value k)
    else after

-- normalizeMatch
unfoldable pub normalize_match : Dict String → Match
unfolding clean_match
normalize_match input = if is_nil input then bad_match empty_match else clean_match input []

-- parseMode; `none` is the empty mode
unfoldable pub parse_mode : String → Option Mode
unfolding trim_space to_lower
parse_mode value =
    let v = to_lower (trim_space value) in
    if is_empty v
    then some mode_suggest
    else if str_eq v "suggest"
    then some mode_suggest
    else if str_eq v "auto"
    then some mode_auto
    else none

pub data Normalized : Type 0 where
  rule : Rule → Normalized
  rule_error : RuleError → Normalized

abbrev with_mode : Dict String → Severity → String → Option Mode → Normalized
with_mode m s title none = rule_error bad_mode
with_mode m s title (some mode) =
    rule (record { match = m; severity = s; title = trim_space title; mode = mode; source = "" })

abbrev with_severity : Dict String → Option Severity → String → String → Normalized
with_severity m none title mode = rule_error bad_severity
with_severity m (some s) title mode = with_mode m s title (parse_mode mode)

abbrev pub rule_service : Dict String → String
rule_service m = if is_empty (text_at "service" m) then text_at "job" m else text_at "service" m

abbrev pub with_match : RuleConfig → Match → Normalized
with_match cfg (bad_match e) = rule_error e
with_match cfg (clean m) =
    if is_empty (trim_space (rule_service m))
    then rule_error service_required
    else with_severity m (parse_severity cfg.severity) cfg.title cfg.mode

-- normalizeRule
unfoldable pub normalize_rule : RuleConfig → Normalized
normalize_rule cfg = with_match cfg (normalize_match cfg.match)

-- the rules of a file that has been read: those that are refused are skipped with a warning
unfoldable pub load_rules : List RuleConfig → String → List Rule
unfolding normalize_rule
load_rules [] path = []
load_rules (c ∷ cs) path =
    let rest = load_rules cs path in
    elim (normalize_rule c) [ rule r ↦ record r { source = path } ∷ rest | rule_error e ↦ rest ]

-- ruleMatches: a label that is missing is the empty text
unfoldable pub all_match : Dict String → Dict String → Bool
unfolding text_at
all_match [] labels = true
all_match ((key, value) ∷ rest) labels =
    if str_eq (text_at key labels) value then all_match rest labels else false

unfoldable pub rule_matches : Rule → Dict String → Bool
unfolding all_match
rule_matches r labels = all_match r.match labels

-- matchRule: the first rule that matches
unfoldable pub match_rule : List Rule → Dict String → Option Rule
unfolding find rule_matches
match_rule rules labels = find (λ r. rule_matches r labels) rules
