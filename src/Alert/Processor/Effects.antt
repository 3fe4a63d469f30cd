-- ===== src/Alert/Processor/Effects.antt =====
-- What a batch of alerts does to the incident files.
use health_monitor_sre_engin.Common.{
  String, false, Option, none, some, List, [], ◌∷◌, refl, is_empty, Dict,
}
use health_monitor_sre_engin.Incident.{Incident, note}
use health_monitor_sre_engin.Incident.Store
use health_monitor_sre_engin.Incident.Store.{Files}
use health_monitor_sre_engin.Incident.World.{Err, Exec, Result, ok, err}
use health_monitor_sre_engin.Incident.Service.Evolution.{IsKeyed, Evolved, Writes-Evolved}
use health_monitor_sre_engin.Incident.Service.{suggest_with_metadata}
use health_monitor_sre_engin.Incident.Service.Notes.{note_by_id}
use health_monitor_sre_engin.Incident.Service.Methods.{
  resolve_by_id-Follows, update_severity_by_id-Follows, add_event_by_id-Follows,
}
use health_monitor_sre_engin.Incident.Service.Openings.{
  suggest_with_metadata-Follows, start_for_service_flow_with_metadata-Follows,
}
use health_monitor_sre_engin.Alert.{Alert, Rule, Mode, mode_auto, mode_suggest}
use health_monitor_sre_engin.Alert.Processor.Apply.{
  apply_resolved, escalate, attach_active, attach_suggested, annotation_note, after_suggest,
  after_start, says_active_exists, open_incident, open_in_mode, fresh_suggestion, find_active,
  find_suggested, apply_suggested, apply_firing, apply,
}
use health_monitor_sre_engin.Alert.Processor.Messages.{Job}
use health_monitor_sre_engin.Alert.Processor.Process.{
  is_duplicate, slo_job, rule_job, dispatch, process_alert, process,
}
use health_monitor_sre_engin.Alert.Processor.State.{
  Decision, Warning, Action, Config, Processor, Run, ◌>>=◌, look, call,
}
use health_monitor_sre_engin.Alert.Processor.Moves.{
  Moves, bind_rule, if_rule, call_rule, still, decide-Moves, warn-Moves, warn_listing-Moves,
  count-Moves, look-Moves, return-Moves, failure-Moves, counted-Moves, record-Moves,
}

note-Moves : (cfg : Config) (id message : String) → Moves (call (note_by_id cfg.env id message ""))
unfolding note_by_id
note-Moves cfg id message = call_rule _ (add_event_by_id-Follows cfg.env id note message "")

-- a call, and then a step that looks at what it returned
after_call :
    {A B : Type 0} (m : Exec A) (f : Result A → Run B)
    → Moves (call m)
    → ((r : Result A) → Moves (f r))
    → Moves (call m >>= f)
after_call m f h k = bind_rule (call m) f h k

resolved-Moves :
    (cfg : Config) (j : Job) (o : Option Incident) → Moves (apply_resolved cfg j o false)
unfolding apply_resolved
resolved-Moves cfg j none = decide-Moves _
resolved-Moves cfg j (some i) =
    after_call _ _ (call_rule _ (resolve_by_id-Follows cfg.env i.id _ "system" none))
      λ r. bind_rule _ _ (failure-Moves _ r) λ _. decide-Moves _

escalate-Moves :
    (cfg : Config) (j : Job) (i : Incident) (f : Err → Warning) → Moves (escalate cfg j i f)
escalate-Moves cfg j i f =
    if_rule _ _ _
      (after_call _ _ (call_rule _ (update_severity_by_id-Follows cfg.env i.id j.severity "" _))
        λ r. bind_rule _ _ (failure-Moves f r) λ _. return-Moves _)
      (return-Moves none)

attach_active-Moves : (cfg : Config) (j : Job) (i : Incident) → Moves (attach_active cfg j i false)
unfolding attach_active
attach_active-Moves cfg j i = bind_rule _ _ (escalate-Moves cfg j i _) λ e.
    bind_rule _ _ (count-Moves _) λ _. after_call _ _ (note-Moves cfg i.id _) λ r.
      bind_rule _ _ (counted-Moves _ r) λ _. bind_rule _ _ (record-Moves j _) λ _. decide-Moves _

attach_suggested-Moves :
    (cfg : Config) (j : Job) (i : Incident) → Moves (attach_suggested cfg j i false)
unfolding attach_suggested
attach_suggested-Moves cfg j i = bind_rule _ _ (escalate-Moves cfg j i _) λ e.
    bind_rule _ _ (count-Moves _) λ _. after_call _ _ (note-Moves cfg i.id _) λ r.
      bind_rule _ _ (counted-Moves _ r) λ _. bind_rule _ _ (record-Moves j _) λ _. decide-Moves _

annotation-Moves :
    (cfg : Config) (id label text : String) (f : Err → Warning)
    → Moves (annotation_note cfg id label text f)
annotation-Moves cfg id label text f =
    if_rule (is_empty text) _ _ (return-Moves tt)
      (after_call _ _ (note-Moves cfg id _) λ r. failure-Moves f r)

after_suggest-Moves :
    (cfg : Config) (j : Job) (text : String) (a : Action) (d : Decision) (r : Result Incident)
    → Moves (after_suggest cfg j text a d r)
after_suggest-Moves cfg j text a d (err e) = bind_rule _ _ (warn-Moves _) λ _. count-Moves _
after_suggest-Moves cfg j text a d (ok i) = after_call _ _ (note-Moves cfg i.id text) λ r.
    bind_rule _ _ (counted-Moves _ r) λ _.
      bind_rule _ _
        (bind_rule _ _ (annotation-Moves cfg i.id _ _ _) λ _. annotation-Moves cfg i.id _ _ _)
        λ _. bind_rule _ _ (count-Moves _) λ _. bind_rule _ _ (record-Moves j a) λ _. decide-Moves d

suggest-Moves :
    (cfg : Config) (j : Job) (m : Dict String)
    → Moves (call (suggest_with_metadata cfg.env j.service j.severity j.title "" m))
suggest-Moves cfg j m =
    call_rule _ (suggest_with_metadata-Follows cfg.env j.service j.severity j.title "" m)

after_start-Moves :
    (cfg : Config) (j : Job) (m : Dict String) (r : Result Incident) → Moves (after_start cfg j m r)
after_start-Moves cfg j m (ok i) = after_call _ _ (note-Moves cfg i.id _) λ r.
    bind_rule _ _ (counted-Moves _ r)
      λ _. bind_rule _ _ (count-Moves _) λ _. bind_rule _ _ (record-Moves j _) λ _. decide-Moves _
after_start-Moves cfg j m (err e) =
    if_rule (says_active_exists e) _ _
      (after_call _ _ (suggest-Moves cfg j m) λ r. after_suggest-Moves cfg j _ _ _ r)
      (bind_rule _ _ (warn-Moves _) λ _. count-Moves _)

mode-Moves : (cfg : Config) (j : Job) (m : Mode) → Moves (open_in_mode cfg j false m)
mode-Moves cfg j mode_auto =
    after_call _ _
      (call_rule _
        (start_for_service_flow_with_metadata-Follows cfg.env j.service j.severity j.title "" _))
      λ r. after_start-Moves cfg j _ r
mode-Moves cfg j mode_suggest =
    after_call _ _ (suggest-Moves cfg j _) λ r. after_suggest-Moves cfg j _ _ _ r

open-Moves : (cfg : Config) (j : Job) → Moves (open_incident cfg j false)
unfolding open_incident
open-Moves cfg j = mode-Moves cfg j j.mode

fresh-Moves : (o : Option Incident) → Moves (fresh_suggestion o)
fresh-Moves none = return-Moves none
fresh-Moves (some i) = bind_rule look _ look-Moves λ t. return-Moves _

suggested-Moves :
    (cfg : Config) (j : Job) (o : Option Incident) → Moves (apply_suggested cfg j false o)
suggested-Moves cfg j none = open-Moves cfg j
suggested-Moves cfg j (some i) = attach_suggested-Moves cfg j i

firing-Moves : (cfg : Config) (j : Job) (o : Option Incident) → Moves (apply_firing cfg j false o)
firing-Moves cfg j (some i) = attach_active-Moves cfg j i
firing-Moves cfg j none =
    bind_rule (find_suggested cfg j) _ (still (find_suggested cfg j) (λ p. refl)) λ found.
      bind_rule _ _ (warn_listing-Moves found.1)
        λ _. bind_rule _ _ (fresh-Moves found.0) λ o. suggested-Moves cfg j o

apply-Moves : (cfg : Config) (j : Job) → Moves (apply cfg j false)
unfolding apply
apply-Moves cfg j = bind_rule (find_active cfg j) _ (still (find_active cfg j) (λ p. refl)) λ found.
    bind_rule _ _ (warn_listing-Moves found.1) λ _.
      bind_rule _ _ (warn_listing-Moves found.1)
        λ _. if_rule _ _ _ (resolved-Moves cfg j found.0) (firing-Moves cfg j found.0)

dispatch-Moves :
    (cfg : Config) (a : Alert) (labels : Dict String) (r : Option Rule)
    → Moves (dispatch cfg a labels false r)
dispatch-Moves cfg a labels none = if_rule _ _ _ (apply-Moves cfg (slo_job a labels)) (warn-Moves _)
dispatch-Moves cfg a labels (some r) = apply-Moves cfg (rule_job r a labels)

duplicate-Moves : (cfg : Config) (key : String) → Moves (is_duplicate cfg key)
unfolding is_duplicate
duplicate-Moves cfg key =
    if_rule (is_empty key) _ _ (return-Moves false)
      (bind_rule look _ look-Moves λ t. still _ (λ p. refl))

alert-Moves : (cfg : Config) (a : Alert) → Moves (process_alert cfg a false)
unfolding process_alert
alert-Moves cfg a = bind_rule _ _ (count-Moves _) λ _. if_rule _ _ _ (warn-Moves _) (
    bind_rule _ _ (duplicate-Moves cfg _) λ d.
      if_rule d _ _ (bind_rule _ _ (count-Moves _) λ _. warn-Moves _) (dispatch-Moves cfg a _ _))

batch-Moves : (cfg : Config) (xs : List Alert) → Moves (process cfg xs false)
unfolding process
batch-Moves cfg [] = return-Moves tt
batch-Moves cfg (x ∷ xs) = bind_rule _ _ (alert-Moves cfg x) λ _. batch-Moves cfg xs

-- Whatever alerts a batch holds, under any rules, and however the writes end, and provided that each
-- incident is stored under its id: that still holds afterwards, and for every id either nothing changed,
-- or a loadable incident has kept its id, has moved along the life cycle only and has kept its events, or
-- an id that had no file has an incident whose state the life cycle reaches from the beginning.
pub process-Evolved :
    (cfg : Config) (alerts : List Alert) (p : Processor)
    → IsKeyed p.world.files
    → IsKeyed (process cfg alerts false p).1.world.files
      × ((j : String)
          → Evolved
              (Store.load j p.world.files)
              (Store.load j (process cfg alerts false p).1.world.files))
process-Evolved cfg alerts p k = Writes-Evolved ((batch-Moves cfg alerts).moves p) k
