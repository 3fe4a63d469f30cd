-- ===== src/Incident/Service/Notes.antt =====
-- internal/incident/service.go: notes and other events, and changes of severity.
use Prim.Native.String
use health_monitor_sre_engin.Common.{
  String, Bool, true, false, not, ◌&&◌, [], ◌∷◌, ◌++◌, if◌then◌else◌, is_empty, trim_space,
}
use health_monitor_sre_engin.Incident.{
  Severity, EventType, start, note, ack, resolve, suggest, severity_change, Event, Incident,
  is_resolved,
}
use health_monitor_sre_engin.Incident.Ranks.{severity_text}
use health_monitor_sre_engin.Incident.World.{
  Env, audited, severity_required, id_required, event_on_resolved, Exec, ◌>>=◌, ◌>>◌, pure, raise,
  now, emit, try_save, save, load,
}
use health_monitor_sre_engin.Incident.Service.{actor, has_severity}
use health_monitor_sre_engin.Incident.Service.Lifecycle.{require_active, non_empty}

abbrev is_note : EventType → Bool
is_note note = true
is_note _ = false

abbrev event_text : EventType → String
event_text start = "start"
event_text note = "note"
event_text ack = "ack"
event_text resolve = "resolve"
event_text suggest = "suggest"
event_text severity_change = "severity"

abbrev pub noted : Incident → Event → Incident
noted i e = record i { updated_at = e.timestamp; events = i.events ++ e ∷ [] }

-- Service.AddEventByID
unfoldable pub add_event_by_id : Env → String → EventType → String → String → Exec Incident
unfolding now emit try_save load
add_event_by_id env id type message user = do
  non_empty id id_required
  target ← load (trim_space id)
  (if is_resolved target && not (is_note type) then raise event_on_resolved else pure tt)
  t ← now
  let next =
      noted target
        (record { timestamp = t; user = actor env user; type = type; message = trim_space message })
  save next
  emit (
      audited id (actor env user)
        (String.◌++◌ "added " (String.◌++◌ (event_text type) (String.◌++◌ ": " message))))
  pure next

-- Service.NoteByID
unfoldable pub note_by_id : Env → String → String → String → Exec Incident
unfolding add_event_by_id
note_by_id env id message user = add_event_by_id env id note message user

-- Service.Note
unfoldable pub note_active : Env → String → String → Exec Incident
unfolding require_active add_event_by_id
note_active env message user = do
  current ← require_active env
  add_event_by_id env current.id note message user

abbrev severity_message : Severity → String → String
severity_message severity message =
    if is_empty (trim_space message)
    then String.◌++◌ "Severity updated to " (severity_text severity)
    else trim_space message

abbrev pub regraded : Incident → Severity → Event → Incident
regraded i severity e = record i {
  severity = severity;
  updated_at = e.timestamp;
  events = i.events ++ e ∷ [];
}

-- Service.UpdateSeverityByID
unfoldable pub update_severity_by_id : Env → String → Severity → String → String → Exec Incident
unfolding now try_save load
update_severity_by_id env id severity user message =
    if has_severity severity
    then (do
      current ← load id
      t ← now
      let next = regraded current severity (record {
        timestamp = t;
        user = actor env user;
        type = severity_change;
        message = severity_message severity message;
      })
      save next
      pure next)
    else raise severity_required

-- Service.UpdateSeverity
unfoldable pub update_severity : Env → Severity → String → String → Exec Incident
unfolding require_active update_severity_by_id
update_severity env severity user message = do
  current ← require_active env
  update_severity_by_id env current.id severity user message
