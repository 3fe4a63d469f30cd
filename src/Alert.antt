-- ===== src/Alert.antt =====
-- internal/alert: alerts and rules (models.go), and the counters of metrics.go. Times of an alert
-- that nothing reads (StartsAt, EndsAt, GeneratorURL) are left out.
pub mod Mapping
pub mod Fingerprints
pub mod Rate
pub mod Processor
use health_monitor_sre_engin.Common.{ℕ, ◌+◌, ◌%◌, ◌^◌, String, Dict}
use health_monitor_sre_engin.Incident.{Severity}

pub record Alert : Type 0 where
  pub status : String
  pub labels : Dict String
  pub annotations : Dict String
  pub fingerprint : String

pub data Mode : Type 0 where
  mode_suggest mode_auto : Mode

pub record Rule : Type 0 where
  pub match : Dict String
  pub severity : Severity
  pub title : String
  pub mode : Mode
  pub source : String

-- The counters of Metrics that processing an alert changes, as atomic 64-bit integers.
pub record Metrics : Type 0 where
  pub received : ℕ
  pub deduped : ℕ
  pub created : ℕ
  pub suggested : ℕ
  pub failed : ℕ

abbrev next : ℕ → ℕ
next n = (n + 1) % 2 ^ 64

unfoldable pub inc_received : Metrics → Metrics
inc_received m = record m { received = next m.received }

unfoldable pub inc_deduped : Metrics → Metrics
inc_deduped m = record m { deduped = next m.deduped }

unfoldable pub inc_created : Metrics → Metrics
inc_created m = record m { created = next m.created }

unfoldable pub inc_suggested : Metrics → Metrics
inc_suggested m = record m { suggested = next m.suggested }

unfoldable pub inc_failed : Metrics → Metrics
inc_failed m = record m { failed = next m.failed }
