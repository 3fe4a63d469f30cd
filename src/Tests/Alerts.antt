-- ===== src/Tests/Alerts.antt =====
-- The theorems on alerts, at concrete inputs.
use health_monitor_sre_engin.Common.{
  ℕ, ltb, ◌/◌, ◌+◌, ◌-◌, ◌*◌, String, true, false, List, [], ◌∷◌, ◌≡◌, refl, trim_space, text_at,
  arith, filter, lookup, insert, to_lower, to_upper, map_chars, translate,
}
use health_monitor_sre_engin.Incident.{started, p3}
use health_monitor_sre_engin.Incident.Ranks.{parse_severity}
use health_monitor_sre_engin.Incident.Store
use health_monitor_sre_engin.Incident.Store.{done}
use health_monitor_sre_engin.Incident.World.{service_required}
use health_monitor_sre_engin.Incident.Service.Evolution.{IsKeyed, Evolved}
use health_monitor_sre_engin.Alert.{Alert, Rule, mode_auto}
use health_monitor_sre_engin.Alert.Mapping
use health_monitor_sre_engin.Alert.Mapping.{
  RuleConfig, rule, rule_service, parse_mode, normalize_rule, match_rule,
}
use health_monitor_sre_engin.Alert.Mapping.Rules.{First, match_rule-First}
use health_monitor_sre_engin.Alert.Fingerprints.{seen, prune}
use health_monitor_sre_engin.Alert.Fingerprints.Window.{after_calls, accepted_once}
use health_monitor_sre_engin.Alert.Rate.{Floats}
use health_monitor_sre_engin.Alert.Processor.State.{start_failed}
use health_monitor_sre_engin.Alert.Processor.Apply.{open_incident}
use health_monitor_sre_engin.Alert.Processor.Process.{rule_job, process}
use health_monitor_sre_engin.Alert.Processor.DryRun.{process-dry_run}
use health_monitor_sre_engin.Alert.Processor.Effects.{process-Evolved}
use health_monitor_sre_engin.Alert.Processor.Blank.{refused_with, open_incident-job_only}
use health_monitor_sre_engin.Tests.Samples.{
  sample_files, sample_world, sample-IsKeyed, sample_rule, job_rule, sample_alert, sample_config,
  sample_processor,
}

abbrev batch : List Alert
batch = sample_alert "firing" ∷ sample_alert "resolved" ∷ []

process-dry_run_example :
    ((process sample_config batch true (sample_processor (sample_world started done))).1.world
      ≡ sample_world started done)
    × ((process sample_config batch true (sample_processor (sample_world started done))).1.history
        ≡ [])
process-dry_run_example =
    process-dry_run sample_config batch (sample_processor (sample_world started done))

process-Evolved_example :
    IsKeyed
      (process sample_config batch false
        (sample_processor (sample_world started done))).1.world.files
    × ((j : String)
        → Evolved (Store.load j (sample_files started)) (
            Store.load j
              (process sample_config batch false
                (sample_processor (sample_world started done))).1.world.files))
process-Evolved_example =
    process-Evolved sample_config batch (sample_processor (sample_world started done))
      (sample-IsKeyed started)

first_unseen : (seen 100 "k" 10 []).0 ≡ false
unfolding seen prune filter lookup
first_unseen = refl

accepted_once_example :
    (seen 100 "k" 110 (after_calls 100 (("j", 50) ∷ ("k", 90) ∷ []) (seen 100 "k" 10 []).1)).0
    ≡ true
accepted_once_example =
    accepted_once 100 10 110 "k" (("j", 50) ∷ ("k", 90) ∷ []) [] refl first_unseen
      (omega arith, (omega arith, tt)) (omega arith)

-- whole numbers, of which every one is exact
abbrev whole : Floats ℕ
whole = record {
  of_int = λ n. n;
  plus = λ a b. a + b;
  minus = λ a b. a - b;
  times = λ a b. a * b;
  less = λ a b. ltb a b;
  seconds = λ n. n / 1000000000;
}

abbrev sample_rule_config : RuleConfig
sample_rule_config = record {
  match = (" Job ", "node ") ∷ [];
  severity = "p3";
  title = "";
  mode = "AUTO";
}

abbrev read_rule : Rule
read_rule = record {
  match = ("job", "node") ∷ [];
  severity = p3;
  title = "";
  mode = mode_auto;
  source = "";
}

rule_read : normalize_rule sample_rule_config ≡ rule read_rule
unfolding normalize_rule Mapping.normalize_match Mapping.clean_match trim_space to_lower map_chars
    translate insert text_at lookup parse_severity to_upper parse_mode
rule_read = refl

match_rule-First_example :
    First
      (("alertname", "Down") ∷ ("service", "api") ∷ [])
      (job_rule ∷ sample_rule ∷ [])
      (match_rule (job_rule ∷ sample_rule ∷ []) (("alertname", "Down") ∷ ("service", "api") ∷ []))
match_rule-First_example =
    match_rule-First (job_rule ∷ sample_rule ∷ []) (("alertname", "Down") ∷ ("service", "api") ∷ [])

no_service : text_at "service" job_rule.match ≡ ""
unfolding text_at lookup
no_service = refl

open_incident-job_only_example :
    open_incident sample_config
      (rule_job job_rule (sample_alert "firing") [])
      false
      (sample_processor (sample_world started done))
    ≡ (
      tt,
      refused_with (start_failed service_required) (sample_processor (sample_world started done)),
    )
open_incident-job_only_example =
    open_incident-job_only sample_config job_rule (sample_alert "firing") []
      (sample_processor (sample_world started done)) no_service
