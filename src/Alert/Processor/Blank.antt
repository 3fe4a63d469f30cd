-- ===== src/Alert/Processor/Blank.antt =====
-- Alerts for which no service is known: what opening an incident does then.
use health_monitor_sre_engin.Common.{
  String, true, false, [], ◌∷◌, ◌++◌, ◌≡◌, refl, ap, ◌∙◌, is_empty, trim_space, text_at, Dict,
}
use health_monitor_sre_engin.Incident.{Severity}
use health_monitor_sre_engin.Incident.World.{Env, World, Err, service_required, Result, err}
use health_monitor_sre_engin.Incident.World
use health_monitor_sre_engin.Incident.Service.{
  check_request, start_for_service_flow, start_for_service_flow_with_metadata, suggest_incident,
  suggest_with_metadata,
}
use health_monitor_sre_engin.Alert.{Alert, Mode, mode_auto, mode_suggest, Rule, inc_failed}
use health_monitor_sre_engin.Alert.Processor.State.{
  start_failed, suggest_failed, Config, Processor, ◌>>=◌, warn, count, call, Warning,
}
use health_monitor_sre_engin.Alert.Processor.Apply.{open_in_mode, open_incident}
use health_monitor_sre_engin.Alert.Processor.Messages.{Job}
use health_monitor_sre_engin.Alert.Processor.Process.{rule_job}

blank_refused :
    (service : String) (severity : Severity) (title : String) (w : World)
    → is_empty (trim_space service) ≡ true
    → check_request service severity title w ≡ (err service_required, w)
unfolding check_request
blank_refused service severity title w h = rw h refl

start_refused :
    (env : Env) (service : String) (severity : Severity) (title user : String) (m : Dict String)
    (w : World)
    → is_empty (trim_space service) ≡ true
    → start_for_service_flow_with_metadata env service severity title user m w
      ≡ (err service_required, w)
unfolding start_for_service_flow_with_metadata start_for_service_flow World.◌>>=◌
start_refused env service severity title user m w h =
    rw (blank_refused service severity title w h) refl

suggest_refused :
    (env : Env) (service : String) (severity : Severity) (title user : String) (m : Dict String)
    (w : World)
    → is_empty (trim_space service) ≡ true
    → suggest_with_metadata env service severity title user m w ≡ (err service_required, w)
unfolding suggest_with_metadata suggest_incident World.◌>>=◌
suggest_refused env service severity title user m w h =
    rw (blank_refused service severity title w h) refl

-- one more warning and one more failure
abbrev pub refused_with : Warning → Processor → Processor
refused_with x p = record p { warnings = p.warnings ++ x ∷ []; stats = inc_failed p.stats }

blank_opening :
    (cfg : Config) (j : Job) (m : Mode) (p : Processor)
    → is_empty (trim_space j.service) ≡ true
    → open_in_mode cfg j false m p ≡ (
      tt,
      refused_with
          (elim m [
            | mode_auto ↦ start_failed service_required
            | mode_suggest ↦ suggest_failed service_required
          ])
          p,
    )
unfolding ◌>>=◌ call warn count
blank_opening cfg j mode_auto p h =
    rw (start_refused cfg.env j.service j.severity j.title "" _ p.world h) refl
blank_opening cfg j mode_suggest p h =
    rw (suggest_refused cfg.env j.service j.severity j.title "" _ p.world h) refl

trim_empty : is_empty (trim_space "") ≡ true
unfolding trim_space
trim_empty = refl

-- A rule whose match section has no `service`, though normalizeRule accepts `job` in its place, opens no
-- incident: where there is neither an active incident nor a fresh suggestion, an alert that it matches only
-- gives the warning that a service is required and one more failure.
pub open_incident-job_only :
    (cfg : Config) (r : Rule) (alert : Alert) (labels : Dict String) (p : Processor)
    → text_at "service" r.match ≡ ""
    → open_incident cfg (rule_job r alert labels) false p ≡ (
      tt,
      refused_with
          (elim r.mode [
            | mode_auto ↦ start_failed service_required
            | mode_suggest ↦ suggest_failed service_required
          ])
          p,
    )
unfolding open_incident
open_incident-job_only cfg r alert labels p h =
    blank_opening cfg (rule_job r alert labels) r.mode p
      (ap (λ s. is_empty (trim_space s)) h ∙ trim_empty)
