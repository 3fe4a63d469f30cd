-- ===== src/Tests/Samples.antt =====
-- Sample incidents, worlds, rules and alerts.
use health_monitor_sre_engin.Common.{
  ◌+◌, String, true, false, none, some, [], ◌∷◌, ◌≡◌, ◌≢◌, refl, is_empty, trim_space, false, arith,
}
use health_monitor_sre_engin.Incident.{State, p1, p2, p3, start, Incident}
use health_monitor_sre_engin.Incident.Store
use health_monitor_sre_engin.Incident.Store.{
  Files, Outcome, done, write_failed, file_at, loaded, load_failed,
}
use health_monitor_sre_engin.Incident.Store.RoundTrip.{load-save, load-save_ne, save_cases}
use health_monitor_sre_engin.Incident.World.{Env, World}
use health_monitor_sre_engin.Incident.Service.Evolution.{IsKeyed, IsKeyed-after}
use health_monitor_sre_engin.Alert.{Alert, mode_auto, Rule}
use health_monitor_sre_engin.Alert.Processor.State.{Config, Processor}

abbrev pub sample_id : String
sample_id = "INC-20240501-120000"

abbrev pub sample_incident : State → Incident
sample_incident s = record {
  id = sample_id;
  service = "api";
  severity = p2;
  title = "slow";
  state = s;
  profile = "default";
  created_at = 5;
  updated_at = 5;
  summary = "";
  events = record { timestamp = 5; user = "ops"; type = start; message = "" } ∷ [];
  links = record { grafana = ""; prometheus = ""; logs = ""; traces = "" };
  analysis = none;
  toil = none;
  action_items = [];
  metadata = [];
}

abbrev pub sample_env : Env
sample_env = record {
  profile = "default";
  user = "ops";
  stamp = λ t. "20240501-120001";
  links = none;
  flows = some [];
}

abbrev pub sample_files : State → Files
sample_files s = (Store.save done (sample_incident s) []).1

abbrev pub sample_world : State → Outcome → World
sample_world s o = record {
  files = sample_files s;
  clock = λ n. n + 10;
  reads = 0;
  outcomes = λ n. o;
  writes = 0;
  trail = [];
}

pub sample_named : is_empty (trim_space sample_id) ≡ false
unfolding trim_space
sample_named = refl

pub done_written : done ≢ write_failed
done_written = ground arith

pub sample_loaded : (s : State) → Store.load sample_id (sample_files s) ≡ loaded (sample_incident s)
sample_loaded s = load-save done (sample_incident s) [] sample_named done_written

nothing-IsKeyed : IsKeyed []
unfolding Store.load file_at
nothing-IsKeyed j b h = absurd (ground (arith, h))

pub sample-IsKeyed : (s : State) → IsKeyed (sample_files s)
sample-IsKeyed s =
    IsKeyed-after [] (sample_files s) (sample_incident s) nothing-IsKeyed
      (save_cases done (sample_incident s) []) (λ i p. load-save_ne done (sample_incident s) [] i p)

abbrev pub sample_rule : Rule
sample_rule = record {
  match = ("service", "api") ∷ [];
  severity = p1;
  title = "API down";
  mode = mode_auto;
  source = "alerts.yaml";
}

abbrev pub job_rule : Rule
job_rule = record {
  match = ("job", "node") ∷ [];
  severity = p3;
  title = "";
  mode = mode_auto;
  source = "alerts.yaml";
}

abbrev pub sample_alert : String → Alert
sample_alert status = record {
  status = status;
  labels = ("alertname", "Down") ∷ ("service", "api") ∷ [];
  annotations = [];
  fingerprint = "f1";
}

abbrev pub sample_config : Config
sample_config = record {
  env = sample_env;
  digest = λ s. s;
  ttl = 100;
  rules = job_rule ∷ sample_rule ∷ [];
}

abbrev pub sample_processor : World → Processor
sample_processor w = record {
  world = w;
  stats = record { received = 0; deduped = 0; created = 0; suggested = 0; failed = 0 };
  cache = [];
  now_at = λ n. n + 20;
  looks = 0;
  appended = λ n. true;
  attempts = 0;
  history = [];
  decisions = [];
  warnings = [];
}
