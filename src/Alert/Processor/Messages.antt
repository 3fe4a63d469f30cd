-- ===== src/Alert/Processor/Messages.antt =====
-- Processor.apply of internal/alert/handler.go: what it is called with, and the texts and metadata that it
-- makes of an alert.
use Prim.Native.String
use health_monitor_sre_engin.Common.{
  String, Bool, ◌||◌, none, some, [], ◌∷◌, if◌then◌else◌, str_eq, is_empty, Dict, lookup, insert,
}
use health_monitor_sre_engin.Incident.{Severity}
use health_monitor_sre_engin.Incident.Ranks.{severity_text}
use health_monitor_sre_engin.Alert.{Alert, Mode}

-- What apply is called with.
pub record Job : Type 0 where
  pub service : String
  pub severity : Severity
  pub mode : Mode
  pub title : String
  pub alert_name : String
  pub alert : Alert

-- `if x, ok := alert.Annotations[key]; ok && x != ""`
abbrev pub annotation : String → Alert → String
annotation key a = elim (lookup key a.annotations) [ none ↦ "" | some v ↦ v ]

abbrev pub appended_line : String → String → String
appended_line label s = if is_empty s then "" else String.◌++◌ label s

unfoldable pub note_message : Job → String
unfolding lookup
note_message j = String.◌++◌ "New alert received: " (
    String.◌++◌ j.alert_name (
      String.◌++◌ (appended_line "\nSummary: " (annotation "summary" j.alert))
        (appended_line "\nDescription: " (annotation "description" j.alert))))

unfoldable pub resolve_summary : Job → String
unfolding lookup
resolve_summary j =
    String.◌++◌ "✅ Alert Resolved: "
      (String.◌++◌ j.alert_name (appended_line "\nSummary: " (annotation "summary" j.alert)))

-- the labels under their own prefix, and the three that override the search of the back ends
abbrev pub is_override : String → Bool
is_override k =
    str_eq k "prom_service_label" || str_eq k "loki_service_label" || str_eq k "trace_service_tag"

unfoldable pub label_metadata : Dict String → Dict String → Dict String
unfolding insert
label_metadata [] done = done
label_metadata ((k, v) ∷ rest) done =
    let marked = insert (String.◌++◌ "alert_label_" k) v done in
    label_metadata rest (if is_override k then insert k v marked else marked)

abbrev pub with_source : Dict String → Dict String → Dict String
with_source labels done = elim (lookup "source" labels) [
  | none ↦ done
  | some v ↦ insert "source" v done
]

abbrev pub escalation : Severity → String
escalation s = String.◌++◌ "Severity escalated to " (severity_text s)
