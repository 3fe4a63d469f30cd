-- ===== src/Incident/Service/Methods.antt =====
-- The rules of Writes applied to the methods that name their incident.
use health_monitor_sre_engin.Common.{
  String, false, Option, none, some, [], ◌∷◌, ◌≡◌, inl, inr, refl, is_empty, trim_space,
}
use health_monitor_sre_engin.Incident.{
  State, started, acknowledged, resolved, Severity, EventType, Event, Analysis, Toil, Incident,
}
use health_monitor_sre_engin.Incident.Transitions.{validate_transition, validate_transition_iff}
use health_monitor_sre_engin.Incident.Store
use health_monitor_sre_engin.Incident.Store.{Files, loaded}
use health_monitor_sre_engin.Incident.World.{Env, World, Exec, ◌>>=◌, pure}
use health_monitor_sre_engin.Incident.Service.{has_severity}
use health_monitor_sre_engin.Incident.Service.Lifecycle.{
  promote_suggested, require_suggested, resolve_by_id_with_analysis, event, acknowledge_by_id,
  closed_with, resolve_by_id, perform_final_sync,
}
use health_monitor_sre_engin.Incident.Service.Analysis.{
  check_analysis, is_valid_word, valid_categories, valid_failure_types,
}
use health_monitor_sre_engin.Incident.Service.Notes.{
  add_event_by_id, noted, regraded, update_severity_by_id,
}
use health_monitor_sre_engin.Incident.Service.Writes.{Advance, Advance-refl, Writes, Follows, same}
use health_monitor_sre_engin.Incident.Service.Writes.Rules.{
  pure_rule, assoc_rule, pick_rule, guards_rule, guard_rule, non_empty_rule, if_rule, raise_rule,
  now_rule, emit_rule, load_rule, require_rule, non_empty_rule, save_rule, try_save_rule,
}

-- a change of state by one event
moved_by :
    (b : Incident) (e : Event) (s : State)
    → validate_transition b.state s ≡ none
    → Advance b (event b e s)
moved_by b e s v = record {
  same_id = refl;
  moved = inr ((validate_transition_iff b.state s).0 v);
  added = e ∷ [];
  history = refl;
}

pub acknowledge_by_id-Follows :
    (env : Env) (id user : String) (w : World) → Follows w.files (acknowledge_by_id env id user) w
unfolding acknowledge_by_id
acknowledge_by_id-Follows env id user w = non_empty_rule _ _ _ w same (
    load_rule _ _ w same λ b e. require_rule _ _ w same λ v. now_rule _ w (
      save_rule _ b _ _ _ same e (moved_by b _ acknowledged v)
        λ u h l. emit_rule _ _ u (pure_rule _ _ h)))

closed :
    (b : Incident) (e : Event) (s : String) (t : Option Toil) (a : Option Analysis)
    → validate_transition b.state resolved ≡ none
    → Advance b (closed_with b e s t a)
closed b e s t a v = record {
  same_id = refl;
  moved = inr ((validate_transition_iff b.state resolved).0 v);
  added = e ∷ [];
  history = refl;
}

-- the second write of an incident that has just been written
final_rule :
    {fs : Files} (c : Incident) (w : World)
    → Writes fs w.files
    → Store.load c.id w.files ≡ loaded c
    → Follows fs (perform_final_sync c >>= λ _. pure c) w
unfolding perform_final_sync ◌>>=◌
final_rule c w h l =
    let f =
      try_save_rule c.id c c (λ _. pure c) w h l (Advance-refl c c refl refl refl)
        (λ r v g k. pure_rule c v g) in
    record { writes = f.writes }

pub resolve_by_id-Follows :
    (env : Env) (id summary user : String) (toil : Option Toil) (w : World)
    → Follows w.files (resolve_by_id env id summary user toil) w
unfolding resolve_by_id
resolve_by_id-Follows env id summary user toil w = non_empty_rule _ _ _ w same (
    non_empty_rule _ _ _ w same (
      load_rule _ _ w same λ b e. require_rule _ _ w same λ v.
        now_rule _ w
          (save_rule _ b _ _ _ same e (closed b _ summary toil _ v) λ u h l. final_rule _ u h l)))

check_rule :
    {A : Type 0} {fs : Files} (a : Option Analysis) (f : Unit {0} → Exec A) (w : World)
    → Writes fs w.files
    → Follows fs (f tt) w
    → Follows fs (check_analysis a >>= f) w
unfolding check_analysis ◌>>=◌
check_rule none f w h k = record { writes = k.writes }
check_rule (some a) f w h k = record {
  writes =
      (guards_rule (is_valid_word valid_categories a.category)
        (is_valid_word valid_failure_types a.failure_type) _ _ f w h k).writes;
}

pub resolve_by_id_with_analysis-Follows :
    (env : Env) (id summary user : String) (a : Option Analysis) (toil : Option Toil) (w : World)
    → Follows w.files (resolve_by_id_with_analysis env id summary user a toil) w
unfolding resolve_by_id_with_analysis
resolve_by_id_with_analysis-Follows env id summary user a toil w = non_empty_rule _ _ _ w same (
    non_empty_rule _ _ _ w same (
      load_rule _ _ w same λ b e. require_rule _ _ w same λ v. check_rule a _ w same (
        now_rule _ w
          (save_rule _ b _ _ _ same e (closed b _ summary toil _ v) λ u h l. final_rule _ u h l))))

-- one more event and no change of state
extended : (b : Incident) (e : Event) → Advance b (noted b e)
extended b e = record { same_id = refl; moved = inl refl; added = e ∷ []; history = refl }

pub add_event_by_id-Follows :
    (env : Env) (id : String) (type : EventType) (message user : String) (w : World)
    → Follows w.files (add_event_by_id env id type message user) w
unfolding add_event_by_id
add_event_by_id-Follows env id type message user w = non_empty_rule _ _ _ w same (
    load_rule _ _ w same λ b e. guard_rule _ _ _ w same (
      now_rule _ w
        (save_rule _ b _ _ _ same e (extended b _) λ u h l. emit_rule _ _ u (pure_rule _ _ h))))

regrade : (b : Incident) (s : Severity) (e : Event) → Advance b (regraded b s e)
regrade b s e = record { same_id = refl; moved = inl refl; added = e ∷ []; history = refl }

pub update_severity_by_id-Follows :
    (env : Env) (id : String) (severity : Severity) (user message : String) (w : World)
    → Follows w.files (update_severity_by_id env id severity user message) w
unfolding update_severity_by_id
update_severity_by_id-Follows env id severity user message w =
    if_rule (has_severity severity) _ _ w
      (load_rule _ _ w same λ b e.
        now_rule _ w (save_rule _ b _ _ _ same e (regrade b severity _) λ u h l. pure_rule _ _ h))
      (raise_rule _ w same)

pub promote_suggested-Follows :
    (env : Env) (id user : String) (w : World)
    → is_empty (trim_space id) ≡ false
    → Follows w.files (promote_suggested env id user) w
unfolding promote_suggested require_suggested
promote_suggested-Follows env id user w given = rw given (
    assoc_rule _ _ _ w (
      load_rule _ _ w same λ b e. pick_rule _ b _ _ w same (
        require_rule _ _ w same λ v. now_rule _ w (
          emit_rule _ _ _
            (save_rule _ b _ _ _ same e (moved_by b _ started v) λ u h l. pure_rule _ _ h)))))
