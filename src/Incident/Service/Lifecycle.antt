-- ===== src/Incident/Service/Lifecycle.antt =====
-- internal/incident/service.go: acknowledging, promoting and resolving incidents, and the checks of
-- an analysis (models.go). Each method loads an incident, asks ValidateTransition, changes the
-- incident and writes it.
use Prim.Native.String
use health_monitor_sre_engin.Common.{
  ℕ, String, Option, none, some, [], ◌∷◌, ◌++◌, if◌then◌else◌, is_empty, trim_space, find,
}
use health_monitor_sre_engin.Incident.{
  State, started, acknowledged, resolved, start, ack, resolve, Event, Analysis, Toil, Incident,
}
use health_monitor_sre_engin.Incident.Transitions.{validate_transition}
use health_monitor_sre_engin.Incident.Listing.{
  list, is_suggested, Active, no_active, one_active, multiple_active, get_active,
}
use health_monitor_sre_engin.Incident.World.{
  Env, notice_acknowledged, notice_resolved, counted_transition, counted_resolved, notified,
  audited, Err, no_active_incident, multiple_active_incidents, no_suggested_incident, not_suggested,
  summary_required, id_required, Exec, ◌>>=◌, ◌>>◌, pure, raise, now, emit, try_save, save, load,
  require,
}
use health_monitor_sre_engin.Incident.Service.{actor}
use health_monitor_sre_engin.Incident.Service.Analysis.{
  enrich_analysis, check_analysis, normalize_analysis,
}

abbrev of_active : Active → Exec Incident
of_active no_active = raise no_active_incident
of_active (one_active i) = pure i
of_active multiple_active = raise multiple_active_incidents

-- getActive and the errors that every caller of it returns
unfoldable pub require_active : Env → Exec Incident
require_active env w = of_active (get_active env.profile w.files) w

unfoldable pub non_empty : String → Err → Exec Unit
non_empty s e = if is_empty (trim_space s) then raise e else pure tt

abbrev pub event : Incident → Event → State → Incident
event i e s = record i { state = s; updated_at = e.timestamp; events = i.events ++ e ∷ [] }

-- Service.Acknowledge
unfoldable pub acknowledge : Env → String → Exec Incident
unfolding require_active now emit try_save
acknowledge env user = do
  current ← require_active env
  require (validate_transition current.state acknowledged)
  t ← now
  let next =
      event current (record { timestamp = t; user = actor env user; type = ack; message = "" })
        acknowledged
  emit (counted_transition current.state acknowledged)
  save next
  now
  emit (notified notice_acknowledged next)
  pure next

-- Service.AcknowledgeByID
unfoldable pub acknowledge_by_id : Env → String → String → Exec Incident
unfolding now emit try_save load
acknowledge_by_id env id user = do
  non_empty id id_required
  target ← load (trim_space id)
  require (validate_transition target.state acknowledged)
  t ← now
  let next =
      event target (record { timestamp = t; user = actor env user; type = ack; message = "" })
        acknowledged
  save next
  emit (audited id (actor env user) "acknowledged incident")
  pure next

abbrev of_found : Option Incident → Exec Incident
of_found none = raise no_suggested_incident
of_found (some i) = pure i

-- Service.findSuggested and the error of its caller
unfoldable pub require_suggested : String → Exec Incident
unfolding load
require_suggested id =
    if is_empty (trim_space id)
    then (λ w. of_found (find is_suggested (list w.files).0) w)
    else do i ← load (trim_space id); if is_suggested i then pure i else raise not_suggested

-- Service.PromoteSuggested
unfoldable pub promote_suggested : Env → String → String → Exec Incident
unfolding require_suggested now emit try_save
promote_suggested env id user = do
  target ← require_suggested id
  require (validate_transition target.state started)
  t ← now
  let next =
      event target (record { timestamp = t; user = actor env user; type = start; message = "" })
        started
  emit (counted_transition target.state started)
  save next
  pure next

-- Service.PerformFinalSync with nil correlators: a write whose error is only logged
unfoldable pub perform_final_sync : Incident → Exec Unit
unfolding try_save
perform_final_sync i = do try_save i; pure tt

abbrev pub closed_with : Incident → Event → String → Option Toil → Option Analysis → Incident
closed_with i e summary toil analysis = record i {
  state = resolved;
  summary = trim_space summary;
  toil = toil;
  analysis = analysis;
  updated_at = e.timestamp;
  events = i.events ++ e ∷ [];
}

abbrev pub resolution : Env → String → String → ℕ → Event
resolution env user summary t = record {
  timestamp = t;
  user = actor env user;
  type = resolve;
  message = trim_space summary;
}

-- Service.Resolve
unfoldable pub resolve_active : Env → String → String → Option Toil → Exec Incident
unfolding require_active now emit perform_final_sync
resolve_active env summary user toil = do
  non_empty summary summary_required
  current ← require_active env
  require (validate_transition current.state resolved)
  t ← now
  let next =
      closed_with current (resolution env user summary t) summary toil
        (some (enrich_analysis env.flows current))
  emit (counted_transition current.state resolved)
  emit (counted_resolved current.created_at)
  perform_final_sync next
  now
  emit (notified notice_resolved next)
  pure next

-- Service.ResolveByID
unfoldable pub resolve_by_id : Env → String → String → String → Option Toil → Exec Incident
unfolding now try_save load perform_final_sync
resolve_by_id env id summary user toil = do
  non_empty id id_required
  non_empty summary summary_required
  target ← load (trim_space id)
  require (validate_transition target.state resolved)
  t ← now
  let next =
      closed_with target (resolution env user summary t) summary toil
        (some (enrich_analysis env.flows target))
  save next
  perform_final_sync next
  pure next

-- Service.ResolveWithAnalysis
unfoldable pub resolve_with_analysis :
    Env → String → String → Option Analysis → Option Toil → Exec Incident
unfolding require_active now emit try_save perform_final_sync
resolve_with_analysis env summary user analysis toil = do
  non_empty summary summary_required
  current ← require_active env
  require (validate_transition current.state resolved)
  check_analysis analysis
  t ← now
  let next =
      closed_with current (resolution env user summary t) summary toil (normalize_analysis analysis)
  emit (counted_transition current.state resolved)
  emit (counted_resolved current.created_at)
  save next
  emit (audited current.id (actor env user) (String.◌++◌ "resolved: " summary))
  perform_final_sync next
  now
  emit (notified notice_resolved next)
  pure next

-- Service.ResolveByIDWithAnalysis
unfoldable pub resolve_by_id_with_analysis :
    Env → String → String → String → Option Analysis → Option Toil → Exec Incident
unfolding now try_save load perform_final_sync
resolve_by_id_with_analysis env id summary user analysis toil = do
  non_empty id id_required
  non_empty summary summary_required
  target ← load (trim_space id)
  require (validate_transition target.state resolved)
  check_analysis analysis
  t ← now
  let next =
      closed_with target (resolution env user summary t) summary toil (normalize_analysis analysis)
  save next
  perform_final_sync next
  pure next
