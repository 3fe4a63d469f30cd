-- ===== src/Incident/Service/Analysis.antt =====
-- The analysis of an incident: ValidateCategory and ValidateFailureType of
-- internal/incident/models.go with their use by the resolving methods, and enrichAnalysis of
-- internal/incident/analysis.go for an incident that has no logs attached.
use Prim.Native.String
use health_monitor_sre_engin.Common.{
  String, Bool, true, not, ◌&&◌, Option, none, some, List, [], ◌∷◌, if◌then◌else◌, str_eq, is_empty,
  trim_space, to_lower, any, contains,
}
use health_monitor_sre_engin.Flow.{Flow, member}
use health_monitor_sre_engin.Incident.{Analysis, Incident}
use health_monitor_sre_engin.Incident.World.{
  invalid_category, invalid_failure_type, Exec, pure, raise,
}

abbrev pub valid_categories : List String
valid_categories =
    "capacity" ∷ "latency" ∷ "dependency" ∷ "configuration" ∷ "infra" ∷ "deployment" ∷ "security"
    ∷ "unknown" ∷ []

abbrev pub valid_failure_types : List String
valid_failure_types = "service" ∷ "dependency" ∷ "infra" ∷ []

-- ValidateCategory, ValidateFailureType: an empty text is allowed
unfoldable pub is_valid_word : List String → String → Bool
unfolding member
is_valid_word words value =
    if is_empty value then true else member (to_lower (trim_space value)) words

-- the normalised word; an empty one stays as it is
unfoldable pub normalize_word : String → String
normalize_word value = if is_empty value then value else to_lower (trim_space value)

unfoldable pub check_analysis : Option Analysis → Exec Unit
check_analysis none = pure tt
check_analysis (some a) =
    if is_valid_word valid_categories a.category
    then (if is_valid_word valid_failure_types a.failure_type
        then pure tt
        else raise invalid_failure_type)
    else raise invalid_category

unfoldable pub normalize_analysis : Option Analysis → Option Analysis
unfolding normalize_word
normalize_analysis none = none
normalize_analysis (some a) = some (record a {
  category = normalize_word a.category;
  failure_type = normalize_word a.failure_type;
})

abbrev flow_list : Option (List Flow) → List Flow
flow_list none = []
flow_list (some fs) = fs

-- extractComponentFromFlow
unfoldable pub extract_component_from_flow : Option (List Flow) → String → String
unfolding any member
extract_component_from_flow flows service =
    if any (λ f. member service f.services) (flow_list flows) then service else ""

abbrev db_keywords : List String
db_keywords = "db" ∷ "database" ∷ "postgres" ∷ "mysql" ∷ "mongo" ∷ "redis" ∷ "cache" ∷ []

-- the last service of a flow that has a keyword in its name
unfoldable pub db_service : List String → String → String
unfolding any contains
db_service [] found = found
db_service (s ∷ ss) found =
    db_service ss (if any (contains (to_lower s)) db_keywords then s else found)

-- extractDependencyFromFlow
unfoldable pub dependency_in : List Flow → String → String
unfolding db_service member
dependency_in [] service = ""
dependency_in (f ∷ fs) service =
    let db = db_service f.services "" in
    if member service f.services && not (is_empty db) && not (str_eq db service)
    then String.◌++◌ service (String.◌++◌ "->" db)
    else dependency_in fs service

abbrev no_analysis : Analysis
no_analysis = record {
  component = "";
  dependency = "";
  pattern = "";
  category = "";
  root_cause = "";
  fix_summary = "";
  failure_type = "";
  error_signature = "";
  prevention = "";
}

abbrev or_text : String → String → String
or_text s t = if is_empty s then t else s

-- enrichAnalysis, where incident.Logs is nil
unfoldable pub enrich_analysis : Option (List Flow) → Incident → Analysis
unfolding extract_component_from_flow dependency_in
enrich_analysis flows i =
    let a : Analysis = elim i.analysis [ none ↦ no_analysis | some a ↦ a ] in
    record a {
      component = or_text a.component (extract_component_from_flow flows i.service);
      dependency = or_text a.dependency (dependency_in (flow_list flows) i.service);
    }
