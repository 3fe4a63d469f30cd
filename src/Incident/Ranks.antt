-- ===== src/Incident/Ranks.antt =====
-- ParseSeverity, SeverityRank and IsHigherSeverity of internal/incident/models.go.
use health_monitor_sre_engin.Common.{
  ℕ, ltb, String, Bool, true, Option, none, some, if◌then◌else◌, str_eq, eq_iff, ◌≡◌, arith,
  trim_space, to_upper,
}
use health_monitor_sre_engin.Incident.{Severity, ungraded, p1, p2, p3, p4, other_severity}

-- `none` is the error "invalid severity".
unfoldable pub parse_severity : String → Option Severity
parse_severity value =
    let normalized = to_upper (trim_space value) in
    if str_eq normalized "P1"
    then some p1
    else if str_eq normalized "P2"
    then some p2
    else if str_eq normalized "P3"
    then some p3
    else if str_eq normalized "P4"
    then some p4
    else none

-- string(severity)
abbrev pub severity_text : Severity → String
severity_text ungraded = ""
severity_text p1 = "P1"
severity_text p2 = "P2"
severity_text p3 = "P3"
severity_text p4 = "P4"
severity_text (other_severity s) = s

unfoldable pub severity_rank : Severity → ℕ
severity_rank p1 = 4
severity_rank p2 = 3
severity_rank p3 = 2
severity_rank p4 = 1
severity_rank _ = 0

unfoldable pub is_higher_severity : Severity → Severity → Bool
unfolding severity_rank
is_higher_severity next current = ltb (severity_rank current) (severity_rank next)

-- The text of a severity that the parser accepts is the trimmed input in upper case, and its rank is
-- at least 1, so that it is above every severity that is not one of the four.
pub parse_severity_sound :
    (value : String) (s : Severity)
    → parse_severity value ≡ some s
    → (severity_text s ≡ to_upper (trim_space value)) × (is_higher_severity s ungraded ≡ true)
unfolding parse_severity is_higher_severity
parse_severity_sound value s h =
    let n = to_upper (trim_space value) in
    ground (arith, eq_iff n "P1", eq_iff n "P2", eq_iff n "P3", eq_iff n "P4")
