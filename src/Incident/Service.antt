-- ===== src/Incident/Service.antt =====
-- internal/incident/service.go: the methods that open an incident, Start, StartForServiceFlow and
-- Suggest with their variants that set metadata, and what all methods share.
pub mod Analysis
pub mod Lifecycle
pub mod Notes
pub mod Actions
pub mod Writes
pub mod Methods
pub mod Openings
pub mod Items
pub mod Evolution
pub mod Requests
pub mod Outcomes
use Prim.Native.String
use health_monitor_sre_engin.Common.{
  ℕ, zero, suc, String, Bool, true, false, Option, none, some, List, [], ◌∷◌, if◌then◌else◌,
  is_empty, is_nil, trim_space, Dict,
}
use health_monitor_sre_engin.Incident.{
  State, started, suggested, Severity, ungraded, EventType, start, suggest, Event, Links, Incident,
}
use health_monitor_sre_engin.Incident.Store.{StoreError, incident_exists}
use health_monitor_sre_engin.Incident.Listing.{active_incidents, find_active_by_service_flow}
use health_monitor_sre_engin.Incident.World.{
  Env, Notice, notice_started, notice_suggested, counted_started, counted_suggested, notified,
  World, Err, store_error, service_required, title_required, severity_required, active_exists,
  active_exists_for_service, id_exhausted, Exec, ok, err, ◌>>=◌, ◌>>◌, pure, raise, now, emit,
  try_save, try_save_new, save, load,
}

-- ComposeUser, with the label of the process's own user
unfoldable pub compose_user : Env → String → String
compose_user env provided =
    let trimmed = trim_space provided in
    if is_empty trimmed
    then env.user
    else String.◌++◌ trimmed (String.◌++◌ " (system: " (String.◌++◌ env.user ")"))

-- the user that an event names
unfoldable pub actor : Env → String → String
unfolding compose_user
actor env user = if is_empty user then env.user else compose_user env user

abbrev pub has_severity : Severity → Bool
has_severity ungraded = false
has_severity _ = true

-- Service.generateID
unfoldable pub generate_id : Env → ℕ → String
generate_id env t = String.◌++◌ "INC-" (env.stamp t)

abbrev no_links : Links
no_links = record { grafana = ""; prometheus = ""; logs = ""; traces = "" }

abbrev pub linked : Incident → Incident → Option StoreError → Incident
linked before after none = after
linked before after (some e) = before

-- Service.generateObservabilityLinks and what its callers do with its error: the incident goes on
-- without links.
unfoldable pub generate_observability_links : Env → Incident → Exec Incident
unfolding try_save
generate_observability_links env i = elim env.links [
  | none ↦ pure i
  | some g ↦ do let j = record i { links = g i }; e ← try_save j; pure (linked i j e)
]

-- the new incident of Start and StartForServiceFlow
unfoldable pub new_started : Env → String → Severity → String → String → ℕ → Incident
unfolding generate_id
new_started env service severity title who t = record {
  id = generate_id env t;
  service = trim_space service;
  severity = severity;
  title = trim_space title;
  state = started;
  profile = env.profile;
  created_at = t;
  updated_at = t;
  summary = "";
  events = record { timestamp = t; user = who; type = start; message = "" } ∷ [];
  links = no_links;
  analysis = none;
  toil = none;
  action_items = [];
  metadata = [];
}

-- the new incident of Suggest, which has no profile
unfoldable pub new_suggested : Env → String → Severity → String → String → ℕ → Incident
unfolding generate_id
new_suggested env service severity title who t = record {
  id = generate_id env t;
  service = trim_space service;
  severity = severity;
  title = trim_space title;
  state = suggested;
  profile = "";
  created_at = t;
  updated_at = t;
  summary = "";
  events =
      record { timestamp = t; user = who; type = suggest; message = "Suggested incident" } ∷ [];
  links = no_links;
  analysis = none;
  toil = none;
  action_items = [];
  metadata = [];
}

-- What follows the first write: links, the metric and the notification; Suggest counts first.
abbrev pub open_started : Env → Incident → Exec Incident
open_started env i = do
  j ← generate_observability_links env i
  emit counted_started
  now
  emit (notified notice_started j)
  pure j

abbrev pub open_suggested : Env → Incident → Exec Incident
open_suggested env i = do
  emit counted_suggested
  j ← generate_observability_links env i
  now
  emit (notified notice_suggested j)
  pure j

-- one round of the loop over ids: an id that is taken is tried again with a later time
abbrev after_write : Option StoreError → Exec Incident → Exec Incident → Exec Incident
after_write none again go = go
after_write (some incident_exists) again go = again
after_write (some e) again go = raise (store_error e)

-- `for attempts := 0; attempts < 3; attempts++`
unfoldable pub allocate : ℕ → (ℕ → Incident) → (Incident → Exec Incident) → Exec Incident
unfolding now try_save_new ◌>>=◌
allocate zero make go = raise id_exhausted
allocate (suc n) make go = do
  t ← now
  e ← try_save_new (make t)
  after_write e (allocate n make go) (go (make t))

-- the checks of the arguments
unfoldable pub check_request : String → Severity → String → Exec Unit
check_request service severity title =
    if is_empty (trim_space service)
    then raise service_required
    else if is_empty (trim_space title)
    then raise title_required
    else if has_severity severity
    then pure tt
    else raise severity_required

abbrev pub none_active : Env → Exec Unit
none_active env w =
    (if is_nil (active_incidents env.profile w.files).0 then ok tt else err active_exists, w)

abbrev pub refuse_second : String → Option Incident → Exec Unit
refuse_second service none = pure tt
refuse_second service (some i) = raise (active_exists_for_service (trim_space service))

abbrev pub none_for_service : Env → String → Exec Unit
none_for_service env service w =
    refuse_second service (find_active_by_service_flow env.flows env.profile service w.files).0 w

-- Service.Start
unfoldable pub start_incident : Env → String → Severity → String → String → Exec Incident
unfolding allocate check_request generate_observability_links now emit ◌>>=◌
start_incident env service severity title user = do
  check_request service severity title
  none_active env
  allocate 3 (new_started env service severity title (actor env user)) (open_started env)

-- Service.StartForServiceFlow
unfoldable pub start_for_service_flow : Env → String → Severity → String → String → Exec Incident
unfolding allocate check_request generate_observability_links now emit ◌>>=◌
start_for_service_flow env service severity title user = do
  check_request service severity title
  none_for_service env service
  allocate 3 (new_started env service severity title (actor env user)) (open_started env)

-- Service.Suggest
unfoldable pub suggest_incident : Env → String → Severity → String → String → Exec Incident
unfolding allocate check_request generate_observability_links now emit ◌>>=◌
suggest_incident env service severity title user = do
  check_request service severity title
  allocate 3 (new_suggested env service severity title (actor env user)) (open_suggested env)

-- Store.SaveMetadata, with its error as a value
unfoldable pub save_metadata : String → Dict String → Exec Unit
unfolding load
save_metadata id metadata = do i ← load id; save (record i { metadata = metadata })

abbrev pub ignore : Exec Unit → Exec Unit
ignore m w = (ok tt, (m w).1)

-- the shared end of the variants with metadata; `checked` says whether its error is returned
abbrev set_metadata : Bool → Dict String → Incident → Exec Incident
set_metadata checked metadata i = if is_nil metadata then pure i else do
  (if checked then save_metadata i.id metadata else ignore (save_metadata i.id metadata))
  pure (record i { metadata = metadata })

-- Service.StartWithMetadata, StartForServiceFlowWithMetadata and SuggestWithMetadata
unfoldable pub start_with_metadata :
    Env → String → Severity → String → String → Dict String → Exec Incident
start_with_metadata env service severity title user metadata = do
  i ← start_incident env service severity title user
  set_metadata true metadata i

unfoldable pub start_for_service_flow_with_metadata :
    Env → String → Severity → String → String → Dict String → Exec Incident
start_for_service_flow_with_metadata env service severity title user metadata = do
  i ← start_for_service_flow env service severity title user
  set_metadata false metadata i

unfoldable pub suggest_with_metadata :
    Env → String → Severity → String → String → Dict String → Exec Incident
suggest_with_metadata env service severity title user metadata = do
  i ← suggest_incident env service severity title user
  set_metadata false metadata i
