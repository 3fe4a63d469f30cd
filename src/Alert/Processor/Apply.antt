-- ===== src/Alert/Processor/Apply.antt =====
-- Processor.apply of internal/alert/handler.go, one definition for each of its branches.
use Prim.Native.String
use health_monitor_sre_engin.Common.{
  ℕ, ◌+◌, ltb, String, Bool, true, false, Option, none, some, List, [], if◌then◌else◌, str_eq,
  is_empty, Dict,
}
use health_monitor_sre_engin.Incident.{Severity, Incident}
use health_monitor_sre_engin.Incident.Ranks.{is_higher_severity}
use health_monitor_sre_engin.Incident.Listing
use health_monitor_sre_engin.Incident.Listing.{
  find_active_by_service_flow, find_suggested_by_service_flow,
}
use health_monitor_sre_engin.Incident.World.{
  Err, active_exists, active_exists_for_service, Result, ok, err,
}
use health_monitor_sre_engin.Incident.Service.{
  start_for_service_flow_with_metadata, suggest_with_metadata,
}
use health_monitor_sre_engin.Incident.Service.Lifecycle.{resolve_by_id}
use health_monitor_sre_engin.Incident.Service.Notes.{note_by_id, update_severity_by_id}
use health_monitor_sre_engin.Alert.{
  Mode, mode_suggest, mode_auto, inc_deduped, inc_failed, inc_created, inc_suggested,
}
use health_monitor_sre_engin.Alert.Processor.Messages.{
  Job, annotation, escalation, label_metadata, note_message, resolve_summary, with_source,
}
use health_monitor_sre_engin.Alert.Processor.State.{
  Decision, resolved_without_active, would_note_recovery, transitioned, would_escalate,
  would_escalate_suggested, would_note, would_note_suggested, attached, attached_suggested,
  would_create, would_suggest, created_auto, created_suggested, created_suggested_beside, Warning,
  resolution_failed, severity_update_failed, suggested_severity_update_failed, note_failed,
  summary_note_failed, description_note_failed, start_failed, suggest_failed, Action,
  deduped_active, noted_suggested, created_beside, created_incident, suggested_incident, Config,
  Run, return, ◌>>=◌, ◌>>◌, decide, warn, warn_listing, count, look, call, write_history,
}

abbrev pub failure : {A : Type 0} → (Err → Warning) → Result A → Run Unit
failure f (ok a) = return tt
failure f (err e) = warn (f e)

abbrev pub counted_failure : {A : Type 0} → (Err → Warning) → Result A → Run Unit
counted_failure f (ok a) = return tt
counted_failure f (err e) = do warn (f e); count inc_failed

abbrev pub succeeded : {A : Type 0} → Result A → Severity → Option Severity
succeeded (ok a) s = some s
succeeded (err e) s = none

-- the entry of the history and its time
unfoldable pub record_action : Job → Action → Run Unit
record_action j a = do
  t ← look
  write_history (record {
    time = t;
    alert_name = j.alert_name;
    service = j.service;
    severity = j.severity;
    action = a;
    mode = j.mode;
    title = j.title;
  })

-- the alert is over
unfoldable pub apply_resolved : Config → Job → Option Incident → Bool → Run Unit
apply_resolved cfg j none dry = decide (resolved_without_active j.service)
apply_resolved cfg j (some i) true = decide (would_note_recovery i.id j.alert_name)
apply_resolved cfg j (some i) false = do
  r ← call (resolve_by_id cfg.env i.id (resolve_summary j) "system" none)
  failure resolution_failed r
  decide (transitioned i.id j.alert_name)

abbrev pub escalate : Config → Job → Incident → (Err → Warning) → Run (Option Severity)
escalate cfg j i f =
    if is_higher_severity j.severity i.severity
    then (do
      r ← call (update_severity_by_id cfg.env i.id j.severity "" (escalation j.severity))
      failure f r
      return (succeeded r j.severity))
    else return none

-- A note on the active incident. The source also writes the labels into the metadata of its copy of the
-- incident, which nothing reads or saves.
unfoldable pub attach_active : Config → Job → Incident → Bool → Run Unit
attach_active cfg j i true = do
  (if is_higher_severity j.severity i.severity
      then decide (would_escalate j.severity i.id)
      else return tt)
  decide (would_note i.id j.alert_name)
attach_active cfg j i false = do
  escalated ← escalate cfg j i severity_update_failed
  count inc_deduped
  r ← call (note_by_id cfg.env i.id (note_message j) "")
  counted_failure note_failed r
  record_action j deduped_active
  decide (attached j.alert_name i.id escalated)

-- the same on a suggested incident that is not stale
unfoldable pub attach_suggested : Config → Job → Incident → Bool → Run Unit
attach_suggested cfg j i true = do
  (if is_higher_severity j.severity i.severity
      then decide (would_escalate_suggested j.severity i.id)
      else return tt)
  decide (would_note_suggested i.id j.alert_name)
attach_suggested cfg j i false = do
  escalated ← escalate cfg j i suggested_severity_update_failed
  count inc_deduped
  r ← call (note_by_id cfg.env i.id (note_message j) "")
  counted_failure note_failed r
  record_action j noted_suggested
  decide (attached_suggested j.alert_name i.id escalated)

abbrev pub annotation_note : Config → String → String → String → (Err → Warning) → Run Unit
annotation_note cfg id label text f =
    if is_empty text
    then return tt
    else do r ← call (note_by_id cfg.env id (String.◌++◌ label text) ""); failure f r

-- the two annotations as notes
abbrev pub annotation_notes : Config → Job → String → Run Unit
annotation_notes cfg j id = do
  annotation_note cfg id "Summary: " (annotation "summary" j.alert) summary_note_failed
  annotation_note cfg id "Description: " (annotation "description" j.alert) description_note_failed

-- what follows SuggestWithMetadata, which the source has twice
abbrev pub after_suggest : Config → Job → String → Action → Decision → Result Incident → Run Unit
after_suggest cfg j text action d (err e) = do warn (suggest_failed e); count inc_failed
after_suggest cfg j text action d (ok i) = do
  r ← call (note_by_id cfg.env i.id text "")
  counted_failure note_failed r
  annotation_notes cfg j i.id
  count inc_suggested
  record_action j action
  decide d

-- strings.Contains(err.Error(), "an active incident already exists")
abbrev pub says_active_exists : Err → Bool
says_active_exists active_exists = true
says_active_exists (active_exists_for_service s) = true
says_active_exists _ = false

abbrev pub after_start : Config → Job → Dict String → Result Incident → Run Unit
after_start cfg j metadata (ok i) = do
  r ← call (note_by_id cfg.env i.id "Created automatically from alert" "")
  counted_failure note_failed r
  count inc_created
  record_action j created_incident
  decide (created_auto j.service)
after_start cfg j metadata (err e) =
    if says_active_exists e
    then (do
      r ← call (suggest_with_metadata cfg.env j.service j.severity j.title "" metadata)
      after_suggest cfg j "Created automatically from alert (active incident exists)" created_beside
          (created_suggested_beside j.service) r)
    else do warn (start_failed e); count inc_failed

-- neither an active incident nor a fresh suggestion: by the mode of the rule
abbrev pub open_in_mode : Config → Job → Bool → Mode → Run Unit
open_in_mode cfg j dry mode_auto =
    if dry then decide (would_create j.service j.severity j.title) else do
      let metadata = with_source j.alert.labels (label_metadata j.alert.labels [])
      r ←
          call
            (start_for_service_flow_with_metadata cfg.env j.service j.severity j.title "" metadata)
      after_start cfg j metadata r
open_in_mode cfg j dry mode_suggest =
    if dry then decide (would_suggest j.service j.severity j.title) else do
      r ← call (
          suggest_with_metadata cfg.env j.service j.severity j.title ""
            (label_metadata j.alert.labels []))
      after_suggest cfg j "Created automatically from alert" suggested_incident
          (created_suggested j.service) r

unfoldable pub open_incident : Config → Job → Bool → Run Unit
open_incident cfg j dry = open_in_mode cfg j dry j.mode

abbrev pub four_hours : ℕ
four_hours = 14400000000000

-- a suggestion that is older than four hours is passed over; p.Now is read only where there is one
abbrev pub fresh_suggestion : Option Incident → Run (Option Incident)
fresh_suggestion none = return none
fresh_suggestion (some i) = do
  t ← look
  return (if ltb (i.created_at + four_hours) t then none else some i)

abbrev pub find_active : Config → Job → Run (Option Incident × List Listing.Warning)
find_active cfg j p =
    (find_active_by_service_flow cfg.env.flows cfg.env.profile j.service p.world.files, p)

abbrev pub find_suggested : Config → Job → Run (Option Incident × List Listing.Warning)
find_suggested cfg j p = (find_suggested_by_service_flow cfg.env.flows j.service p.world.files, p)

abbrev pub apply_suggested : Config → Job → Bool → Option Incident → Run Unit
apply_suggested cfg j dry none = open_incident cfg j dry
apply_suggested cfg j dry (some i) = attach_suggested cfg j i dry

abbrev pub apply_firing : Config → Job → Bool → Option Incident → Run Unit
apply_firing cfg j dry (some i) = attach_active cfg j i dry
apply_firing cfg j dry none = do
  found ← find_suggested cfg j
  warn_listing found.1
  fresh ← fresh_suggestion found.0
  apply_suggested cfg j dry fresh

-- Processor.apply; the warnings of the search are added twice, as in the source
unfoldable pub apply : Config → Job → Bool → Run Unit
apply cfg j dry = do
  found ← find_active cfg j
  warn_listing found.1
  warn_listing found.1
  (if str_eq j.alert.status "resolved"
      then apply_resolved cfg j found.0 dry
      else apply_firing cfg j dry found.0)
