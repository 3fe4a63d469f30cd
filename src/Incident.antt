-- ===== src/Incident.antt =====
-- The data model of internal/incident/models.go and internal/audit/types.go: states, severities,
-- events, analyses, action items and the incident record. A time is a number of nanoseconds.
-- The fields that only the log, trace, Kubernetes and machine learning back ends write (Logs,
-- Traces, Impact, LifecycleSnapshots, Cluster, Namespace, Deployment, K8sContext) are left out.
pub mod Ranks
pub mod Transitions
pub mod Store
pub mod Listing
pub mod World
pub mod Service
use health_monitor_sre_engin.Common.{ℕ, String, Bool, true, false, Option, List, Dict}

-- A state is a text in the source: the zero value, the four constants, or any other text that a
-- file may hold.
pub data State : Type 0 where
  unset suggested started acknowledged resolved : State
  other_state : String → State

-- State.IsTerminal
abbrev pub is_terminal : State → Bool
is_terminal resolved = true
is_terminal _ = false

pub data Severity : Type 0 where
  ungraded p1 p2 p3 p4 : Severity
  other_severity : String → Severity

pub data EventType : Type 0 where
  start note ack resolve suggest severity_change : EventType

pub record Event : Type 0 where
  pub timestamp : ℕ
  pub user : String
  pub type : EventType
  pub message : String

pub record Analysis : Type 0 where
  pub component : String
  pub dependency : String
  pub pattern : String
  pub category : String
  pub root_cause : String
  pub fix_summary : String
  pub failure_type : String
  pub error_signature : String
  pub prevention : String

pub record Toil : Type 0 where
  pub minutes : ℕ
  pub category : String

pub data ActionPriority : Type 0 where
  ap1 ap2 ap3 ap4 : ActionPriority

pub data ActionStatus : Type 0 where
  todo in_progress done wont_fix : ActionStatus

pub record ActionItem : Type 0 where
  pub id : String
  pub description : String
  pub owner : String
  pub priority : ActionPriority
  pub status : ActionStatus
  pub due_date : ℕ
  pub created_at : ℕ
  pub updated_at : ℕ

pub record Links : Type 0 where
  pub grafana : String
  pub prometheus : String
  pub logs : String
  pub traces : String

pub record Incident : Type 0 where
  pub id : String
  pub service : String
  pub severity : Severity
  pub title : String
  pub state : State
  pub profile : String
  pub created_at : ℕ
  pub updated_at : ℕ
  pub summary : String
  pub events : List Event
  pub links : Links
  pub analysis : Option Analysis
  pub toil : Option Toil
  pub action_items : List ActionItem
  pub metadata : Dict String

-- Incident.IsResolved
abbrev pub is_resolved : Incident → Bool
is_resolved i = is_terminal i.state
