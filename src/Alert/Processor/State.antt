-- ===== src/Alert/Processor/State.antt =====
-- The state of the alert processor, its steps, and the calls of the incident service.
use health_monitor_sre_engin.Common.{
  ℕ, ◌+◌, String, Bool, Option, List, [], ◌∷◌, ◌++◌, map, if◌then◌else◌, Dict,
}
use health_monitor_sre_engin.Incident.{Severity}
use health_monitor_sre_engin.Incident.Listing
use health_monitor_sre_engin.Incident.World.{Env, World, Err, Exec, Result}
use health_monitor_sre_engin.Alert.{Mode, Metrics, Rule}

pub data Decision : Type 0 where
  would_create_default resolved_without_active : String → Decision
  would_note_recovery transitioned : String → String → Decision
  would_escalate would_escalate_suggested : Severity → String → Decision
  would_note would_note_suggested : String → String → Decision
  attached attached_suggested : String → String → Option Severity → Decision
  would_create would_suggest would_suggest_beside : String → Severity → String → Decision
  created_auto created_suggested created_suggested_beside : String → Decision

pub data Warning : Type 0 where
  missing_alertname : Warning
  duplicate_skipped no_rule_found : String → Warning
  listing_warning : Listing.Warning → Warning
  resolution_failed severity_update_failed suggested_severity_update_failed note_failed
        summary_note_failed description_note_failed start_failed suggest_failed :
      Err → Warning
  history_failed : Warning

pub data Action : Type 0 where
  deduped_active noted_suggested created_beside created_incident suggested_incident : Action

-- an entry of the alert history
pub record Entry : Type 0 where
  pub time : ℕ
  pub alert_name : String
  pub service : String
  pub severity : Severity
  pub action : Action
  pub mode : Mode
  pub title : String

-- `config` of the processor: `digest` is sha256 in hexadecimal, `ttl` the interval of the cache.
pub record Config : Type 0 where
  pub env : Env
  pub digest : String → String
  pub ttl : ℕ
  pub rules : List Rule

-- `appended` says whether the n-th write of the history succeeds; `now_at` is what p.Now returns.
pub record Processor : Type 0 where
  pub world : World
  pub stats : Metrics
  pub cache : Dict ℕ
  pub now_at : ℕ → ℕ
  pub looks : ℕ
  pub appended : ℕ → Bool
  pub attempts : ℕ
  pub history : List Entry
  pub decisions : List Decision
  pub warnings : List Warning

abbrev pub Run : Type 0 → Type 0
Run A = Processor → A × Processor

abbrev pub return : {A : Type 0} → A → Run A
return a p = (a, p)

infixl 5 ◌>>=◌ ◌>>◌
unfoldable pub ◌>>=◌ : {A B : Type 0} → Run A → (A → Run B) → Run B
◌>>=◌ m f p = let (a, q) = m p in f a q

abbrev pub ◌>>◌ : {A B : Type 0} → Run A → Run B → Run B
m >> k = m >>= λ _. k

unfoldable pub decide : Decision → Run Unit
decide d p = (tt, record p { decisions = p.decisions ++ d ∷ [] })

unfoldable pub warn : Warning → Run Unit
warn x p = (tt, record p { warnings = p.warnings ++ x ∷ [] })

unfoldable pub warn_listing : List Listing.Warning → Run Unit
warn_listing xs p = (tt, record p { warnings = p.warnings ++ map listing_warning xs })

unfoldable pub count : (Metrics → Metrics) → Run Unit
count f p = (tt, record p { stats = f p.stats })

-- p.Now()
unfoldable pub look : Run ℕ
look p = (p.now_at p.looks, record p { looks = p.looks + 1 })

-- a call of the incident service; its error is a value
unfoldable pub call : {A : Type 0} → Exec A → Run (Result A)
call m p = let (r, w) = m p.world in (r, record p { world = w })

-- HistoryWriter.Write and what its callers do with its error
unfoldable pub write_history : Entry → Run Unit
write_history e p = (
  tt,
  if p.appended p.attempts
      then record p { history = p.history ++ e ∷ []; attempts = p.attempts + 1 }
      else record p { warnings = p.warnings ++ history_failed ∷ []; attempts = p.attempts + 1 },
)
