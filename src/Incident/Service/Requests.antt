-- ===== src/Incident/Service/Requests.antt =====
-- Sequences of calls of the methods of internal/incident/service.go that name their incident or open
-- one, by any callers in any order, and what becomes of each incident.
use health_monitor_sre_engin.Common.{
  ℕ, String, false, Option, List, [], ◌∷◌, ◌++◌, ◌≡◌, refl, sym, subst, append-nil, is_empty,
  trim_space, Dict, All,
}
use health_monitor_sre_engin.Incident.{
  State, resolved, Severity, EventType, Event, Analysis, Toil, ActionPriority, ActionStatus,
  Incident,
}
use health_monitor_sre_engin.Incident.Transitions.{◌⟶*◌, here, step}
use health_monitor_sre_engin.Incident.Store
use health_monitor_sre_engin.Incident.Store.{Files, Loaded, loaded, load_failed}
use health_monitor_sre_engin.Incident.World.{Env, World}
use health_monitor_sre_engin.Incident.Service.{
  start_with_metadata, start_for_service_flow_with_metadata, suggest_with_metadata,
}
use health_monitor_sre_engin.Incident.Service.Lifecycle.{
  acknowledge_by_id, promote_suggested, resolve_by_id, resolve_by_id_with_analysis,
}
use health_monitor_sre_engin.Incident.Service.Notes.{add_event_by_id, update_severity_by_id}
use health_monitor_sre_engin.Incident.Service.Actions.{
  add_action_item, update_action_item_status, update_action_item_owner, update_action_item_priority,
  update_action_item_due_date, delete_action_item,
}
use health_monitor_sre_engin.Incident.Service.Writes.{Writes}
use health_monitor_sre_engin.Incident.Service.Methods.{
  acknowledge_by_id-Follows, resolve_by_id-Follows, resolve_by_id_with_analysis-Follows,
  add_event_by_id-Follows, update_severity_by_id-Follows, promote_suggested-Follows,
}
use health_monitor_sre_engin.Incident.Service.Openings.{
  start_with_metadata-Follows, start_for_service_flow_with_metadata-Follows,
  suggest_with_metadata-Follows,
}
use health_monitor_sre_engin.Incident.Service.Items.{
  add_action_item-Follows, update_action_item_status-Follows, update_action_item_owner-Follows,
  update_action_item_priority-Follows, update_action_item_due_date-Follows,
  delete_action_item-Follows,
}
use health_monitor_sre_engin.Incident.Service.Evolution.{
  IsKeyed, Evolved, kept, advanced, Writes-Evolved, Evolved-trans,
}

-- One call. Start, StartForServiceFlow and Suggest are the calls without metadata; NoteByID is
-- AddEventByID.
pub data Request : Type 0 where
  start_request start_flow_request suggest_request :
      String → Severity → String → String → Dict String → Request
  acknowledge_request promote_request : String → String → Request
  resolve_request : String → String → String → Option Toil → Request
  analysis_request : String → String → String → Option Analysis → Option Toil → Request
  event_request : String → EventType → String → String → Request
  severity_request : String → Severity → String → String → Request
  add_item_request : String → String → String → ActionPriority → ActionStatus → ℕ → Request
  item_status_request : String → String → ActionStatus → Request
  item_owner_request : String → String → String → Request
  item_priority_request : String → String → ActionPriority → Request
  item_due_request : String → String → ℕ → Request
  delete_item_request : String → String → Request

-- PromoteSuggested without an id looks for the newest suggestion; the others take none.
abbrev pub IsTargeted : Request → Type 0
IsTargeted (promote_request id user) = is_empty (trim_space id) ≡ false
IsTargeted _ = Unit

-- the world after a call, whatever it returned
unfoldable pub run : Env → Request → World → World
run env (start_request a s t u m) w = (start_with_metadata env a s t u m w).1
run env (start_flow_request a s t u m) w = (start_for_service_flow_with_metadata env a s t u m w).1
run env (suggest_request a s t u m) w = (suggest_with_metadata env a s t u m w).1
run env (acknowledge_request id u) w = (acknowledge_by_id env id u w).1
run env (promote_request id u) w = (promote_suggested env id u w).1
run env (resolve_request id s u t) w = (resolve_by_id env id s u t w).1
run env (analysis_request id s u a t) w = (resolve_by_id_with_analysis env id s u a t w).1
run env (event_request id e m u) w = (add_event_by_id env id e m u w).1
run env (severity_request id s u m) w = (update_severity_by_id env id s u m w).1
run env (add_item_request id d o p s t) w = (add_action_item env id d o p s t w).1
run env (item_status_request id i s) w = (update_action_item_status id i s w).1
run env (item_owner_request id i o) w = (update_action_item_owner id i o w).1
run env (item_priority_request id i p) w = (update_action_item_priority id i p w).1
run env (item_due_request id i t) w = (update_action_item_due_date id i t w).1
run env (delete_item_request id i) w = (delete_action_item id i w).1

unfoldable pub run_all : Env → List Request → World → World
run_all env [] w = w
run_all env (r ∷ rs) w = run_all env rs (run env r w)

run-Writes :
    (env : Env) (r : Request) (w : World) → IsTargeted r → Writes w.files (run env r w).files
unfolding run
run-Writes env (start_request a s t u m) w h = (start_with_metadata-Follows env a s t u m w).writes
run-Writes env (start_flow_request a s t u m) w h =
    (start_for_service_flow_with_metadata-Follows env a s t u m w).writes
run-Writes env (suggest_request a s t u m) w h =
    (suggest_with_metadata-Follows env a s t u m w).writes
run-Writes env (acknowledge_request id u) w h = (acknowledge_by_id-Follows env id u w).writes
run-Writes env (promote_request id u) w h = (promote_suggested-Follows env id u w h).writes
run-Writes env (resolve_request id s u t) w h = (resolve_by_id-Follows env id s u t w).writes
run-Writes env (analysis_request id s u a t) w h =
    (resolve_by_id_with_analysis-Follows env id s u a t w).writes
run-Writes env (event_request id e m u) w h = (add_event_by_id-Follows env id e m u w).writes
run-Writes env (severity_request id s u m) w h =
    (update_severity_by_id-Follows env id s u m w).writes
run-Writes env (add_item_request id d o p s t) w h =
    (add_action_item-Follows env id d o p s t w).writes
run-Writes env (item_status_request id i s) w h =
    (update_action_item_status-Follows id i s w).writes
run-Writes env (item_owner_request id i o) w h = (update_action_item_owner-Follows id i o w).writes
run-Writes env (item_priority_request id i p) w h =
    (update_action_item_priority-Follows id i p w).writes
run-Writes env (item_due_request id i t) w h = (update_action_item_due_date-Follows id i t w).writes
run-Writes env (delete_item_request id i) w h = (delete_action_item-Follows id i w).writes

-- Whatever calls are made, in whatever order and however their writes end, and provided that each
-- incident is stored under its id and no promotion is without an id: each incident is still stored
-- under its id, and for every id either nothing changed, or a loadable incident has kept its id, has
-- moved along the life cycle only and has kept its events, or an id that had no file has an incident
-- whose state the life cycle reaches from the beginning.
pub run_all-Evolved :
    (env : Env) (rs : List Request) (w : World)
    → All IsTargeted rs
    → IsKeyed w.files
    → IsKeyed (run_all env rs w).files
      × ((j : String) → Evolved (Store.load j w.files) (Store.load j (run_all env rs w).files))
unfolding run_all
run_all-Evolved env [] w h k = (k, λ j. kept)
run_all-Evolved env (r ∷ rs) w h k =
    let (keyed, first) = Writes-Evolved (run-Writes env r w h.0) k in
    let (still, rest) = run_all-Evolved env rs (run env r w) h.1 keyed in
    (still, λ j. Evolved-trans _ _ _ (first j) (rest j))

resolved_stays : {s : State} → resolved ⟶* s → s ≡ resolved
resolved_stays here = refl
resolved_stays (step e k) = elim e [ ]

later_resolved :
    (b : Incident) (l : Loaded)
    → Evolved (loaded b) l
    → b.state ≡ resolved
    → (c : Incident) × (l ≡ loaded c)
      × (c.state ≡ resolved)
      × ((es : List Event) × (c.events ≡ b.events ++ es))
later_resolved b l kept e = (b, refl, e, ([], sym (append-nil b.events)))
later_resolved b _ (advanced {c} h) e =
    (c, refl, resolved_stays (subst (λ s. s ⟶* c.state) e h.reached), (h.added, h.history))

-- Whatever calls that name their incident or open one are made, in whatever order and however their writes end,
-- and provided that each incident is stored under its id and no promotion is without an id: an incident that
-- is resolved is afterwards still loaded under its id, is still resolved, and has kept its events with any
-- new ones behind them. Calls on the active incident without an id are not among them.
pub resolved_forever :
    (env : Env) (rs : List Request) (w : World) (j : String) (b : Incident)
    → All IsTargeted rs
    → IsKeyed w.files
    → Store.load j w.files ≡ loaded b
    → b.state ≡ resolved
    → (c : Incident) × (Store.load j (run_all env rs w).files ≡ loaded c)
      × (c.state ≡ resolved)
      × ((es : List Event) × (c.events ≡ b.events ++ es))
resolved_forever env rs w j b h k l e =
    later_resolved b _
      (subst (λ m. Evolved m (Store.load j (run_all env rs w).files)) l
        ((run_all-Evolved env rs w h k).1 j))
      e
