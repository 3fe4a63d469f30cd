-- ===== src/Alert/Processor/Process.antt =====
-- Processor.processAlert and Processor.Process of internal/alert/handler.go.
use health_monitor_sre_engin.Common.{
  String, Bool, false, not, Option, none, some, List, [], ◌∷◌, if◌then◌else◌, str_eq, is_empty,
  trim_space, Dict, text_at,
}
use health_monitor_sre_engin.Incident.{p2}
use health_monitor_sre_engin.Alert.{Alert, Rule, mode_auto, inc_received, inc_deduped}
use health_monitor_sre_engin.Alert.Mapping.{match_rule}
use health_monitor_sre_engin.Alert.Fingerprints.{normalize_labels, fingerprint_key, seen}
use health_monitor_sre_engin.Alert.Processor.State.{
  would_create_default, missing_alertname, duplicate_skipped, no_rule_found, Config, Run, return,
  ◌>>=◌, ◌>>◌, decide, warn, count, look,
}
use health_monitor_sre_engin.Alert.Processor.Apply.{apply}
use health_monitor_sre_engin.Alert.Processor.Messages.{Job}

-- resolveTitle, for the title of a rule or the empty one
unfoldable pub resolve_title : String → Alert → String
unfolding text_at
resolve_title title alert =
    let summary = trim_space (text_at "summary" alert.annotations) in
    if not (is_empty (trim_space title))
    then trim_space title
    else if not (is_empty summary)
    then summary
    else trim_space (text_at "alertname" alert.labels)

-- p.Cache.Seen(key, p.Now()), where the clock is read only for a key
unfoldable pub is_duplicate : Config → String → Run Bool
is_duplicate cfg key =
    if is_empty key
    then return false
    else do t ← look; (λ p. let (b, c) = seen cfg.ttl key t p.cache in (b, record p { cache = c }))

abbrev pub non_blank : String → String → String
non_blank s default = if is_empty s then default else s

abbrev pub slo_job : Alert → Dict String → Job
slo_job alert labels = record {
  service = text_at "service" labels;
  severity = p2;
  mode = mode_auto;
  title = non_blank (resolve_title "" alert) (text_at "alertname" labels);
  alert_name = text_at "alertname" labels;
  alert = alert;
}

abbrev pub rule_job : Rule → Alert → Dict String → Job
rule_job r alert labels = record {
  service = text_at "service" r.match;
  severity = r.severity;
  mode = r.mode;
  title =
      (if is_empty (trim_space (resolve_title r.title alert))
        then text_at "alertname" labels
        else resolve_title r.title alert);
  alert_name = text_at "alertname" labels;
  alert = alert;
}

-- no rule: alerts of SLO sources have a default
abbrev pub without_rule : Config → Alert → Dict String → Bool → Run Unit
without_rule cfg alert labels dry =
    if str_eq (text_at "source" labels) "slo"
    then (if dry
        then decide (would_create_default (text_at "service" labels))
        else apply cfg (slo_job alert labels) false)
    else warn (no_rule_found (text_at "alertname" labels))

abbrev pub dispatch : Config → Alert → Dict String → Bool → Option Rule → Run Unit
dispatch cfg alert labels dry none = without_rule cfg alert labels dry
dispatch cfg alert labels dry (some r) = apply cfg (rule_job r alert labels) dry

-- processAlert
unfoldable pub process_alert : Config → Alert → Bool → Run Unit
process_alert cfg alert dry = do
  count inc_received
  let labels = normalize_labels alert.labels
  (if is_empty (text_at "alertname" labels) then warn missing_alertname else do
    duplicate ← is_duplicate cfg (fingerprint_key cfg.digest alert labels)
    (if duplicate
        then (do count inc_deduped; warn (duplicate_skipped (text_at "alertname" labels)))
        else dispatch cfg alert labels dry (match_rule cfg.rules labels)))

-- Process, its alerts in the order in which the workers finish them
unfoldable pub process : Config → List Alert → Bool → Run Unit
process cfg [] dry = return tt
process cfg (a ∷ as') dry = do process_alert cfg a dry; process cfg as' dry
