-- ===== src/Alert/Processor/DryRun.antt =====
-- What a dry run of a batch may change.
use health_monitor_sre_engin.Common.{
  String, Bool, true, false, Option, none, some, List, [], ◌∷◌, ◌≡◌, refl, ◌∙◌, if◌then◌else◌,
  is_empty, Dict,
}
use health_monitor_sre_engin.Incident.{Incident}
use health_monitor_sre_engin.Incident.Listing
use health_monitor_sre_engin.Alert.{Alert, Rule, Metrics, Mode, mode_auto, mode_suggest}
use health_monitor_sre_engin.Alert.Processor.Apply.{
  apply_resolved, attach_active, attach_suggested, open_incident, open_in_mode, fresh_suggestion,
  find_active, find_suggested, apply_suggested, apply_firing, apply,
}
use health_monitor_sre_engin.Alert.Processor.Messages.{Job}
use health_monitor_sre_engin.Alert.Processor.Process.{
  is_duplicate, rule_job, dispatch, process_alert, process,
}
use health_monitor_sre_engin.Alert.Processor.State.{
  Decision, Warning, Config, Processor, Run, return, ◌>>=◌, decide, warn, warn_listing, count, look,
}

-- A step that leaves the incident files, the clock and the effects of the service alone, and writes
-- no entry of the alert history.
pub record Quiet {A : Type 0} (m : Run A) : Type 0 where
  pub world_kept : (p : Processor) → (m p).1.world ≡ p.world
  pub history_kept : (p : Processor) → (m p).1.history ≡ p.history

bind_rule :
    {A B : Type 0} (m : Run A) (f : A → Run B) → Quiet m → ((a : A) → Quiet (f a)) → Quiet (m >>= f)
unfolding ◌>>=◌
bind_rule m f h k = record {
  world_kept = λ p. (k (m p).0).world_kept (m p).1 ∙ h.world_kept p;
  history_kept = λ p. (k (m p).0).history_kept (m p).1 ∙ h.history_kept p;
}

if_rule : {A : Type 0} (b : Bool) (m n : Run A) → Quiet m → Quiet n → Quiet (if b then m else n)
if_rule true m n h k = h
if_rule false m n h k = k

still :
    {A : Type 0} (m : Run A)
    → ((p : Processor) → (m p).1.world ≡ p.world)
    → ((p : Processor) → (m p).1.history ≡ p.history)
    → Quiet m
still m h k = record { world_kept = h; history_kept = k }

decide-Quiet : (d : Decision) → Quiet (decide d)
unfolding decide
decide-Quiet d = still (decide d) (λ p. refl) (λ p. refl)

warn-Quiet : (x : Warning) → Quiet (warn x)
unfolding warn
warn-Quiet x = still (warn x) (λ p. refl) (λ p. refl)

warn_listing-Quiet : (xs : List Listing.Warning) → Quiet (warn_listing xs)
unfolding warn_listing
warn_listing-Quiet xs = still (warn_listing xs) (λ p. refl) (λ p. refl)

count-Quiet : (f : Metrics → Metrics) → Quiet (count f)
unfolding count
count-Quiet f = still (count f) (λ p. refl) (λ p. refl)

look-Quiet : Quiet look
unfolding look
look-Quiet = still look (λ p. refl) (λ p. refl)

return-Quiet : {A : Type 0} (a : A) → Quiet (return a)
return-Quiet a = still (return a) (λ p. refl) (λ p. refl)

mode-Quiet : (cfg : Config) (j : Job) (m : Mode) → Quiet (open_in_mode cfg j true m)
mode-Quiet cfg j mode_auto = decide-Quiet _
mode-Quiet cfg j mode_suggest = decide-Quiet _

open-Quiet : (cfg : Config) (j : Job) → Quiet (open_incident cfg j true)
unfolding open_incident
open-Quiet cfg j = mode-Quiet cfg j j.mode

attach_active-Quiet : (cfg : Config) (j : Job) (i : Incident) → Quiet (attach_active cfg j i true)
unfolding attach_active
attach_active-Quiet cfg j i =
    bind_rule _ _ (if_rule _ _ _ (decide-Quiet _) (return-Quiet tt)) λ _. decide-Quiet _

attach_suggested-Quiet :
    (cfg : Config) (j : Job) (i : Incident) → Quiet (attach_suggested cfg j i true)
unfolding attach_suggested
attach_suggested-Quiet cfg j i =
    bind_rule _ _ (if_rule _ _ _ (decide-Quiet _) (return-Quiet tt)) λ _. decide-Quiet _

resolved-Quiet :
    (cfg : Config) (j : Job) (o : Option Incident) → Quiet (apply_resolved cfg j o true)
unfolding apply_resolved
resolved-Quiet cfg j none = decide-Quiet _
resolved-Quiet cfg j (some i) = decide-Quiet _

fresh-Quiet : (o : Option Incident) → Quiet (fresh_suggestion o)
fresh-Quiet none = return-Quiet none
fresh-Quiet (some i) = bind_rule look _ look-Quiet λ t. return-Quiet _

firing-Quiet : (cfg : Config) (j : Job) (o : Option Incident) → Quiet (apply_firing cfg j true o)
firing-Quiet cfg j (some i) = attach_active-Quiet cfg j i
firing-Quiet cfg j none =
    bind_rule (find_suggested cfg j) _ (still (find_suggested cfg j) (λ p. refl) (λ p. refl))
      λ found.
        bind_rule _ _ (warn_listing-Quiet found.1)
          λ _. bind_rule _ _ (fresh-Quiet found.0) λ o. suggested_quiet o
  where
    suggested_quiet : (o : Option Incident) → Quiet (apply_suggested cfg j true o)
    suggested_quiet none = open-Quiet cfg j
    suggested_quiet (some i) = attach_suggested-Quiet cfg j i

apply-Quiet : (cfg : Config) (j : Job) → Quiet (apply cfg j true)
unfolding apply
apply-Quiet cfg j =
    bind_rule (find_active cfg j) _ (still (find_active cfg j) (λ p. refl) (λ p. refl)) λ found.
      bind_rule _ _ (warn_listing-Quiet found.1) λ _.
        bind_rule _ _ (warn_listing-Quiet found.1)
          λ _. if_rule _ _ _ (resolved-Quiet cfg j found.0) (firing-Quiet cfg j found.0)

dispatch-Quiet :
    (cfg : Config) (a : Alert) (labels : Dict String) (r : Option Rule)
    → Quiet (dispatch cfg a labels true r)
dispatch-Quiet cfg a labels none = if_rule _ _ _ (decide-Quiet _) (warn-Quiet _)
dispatch-Quiet cfg a labels (some r) = apply-Quiet cfg (rule_job r a labels)

duplicate-Quiet : (cfg : Config) (key : String) → Quiet (is_duplicate cfg key)
unfolding is_duplicate
duplicate-Quiet cfg key =
    if_rule (is_empty key) _ _ (return-Quiet false)
      (bind_rule look _ look-Quiet λ t. still _ (λ p. refl) (λ p. refl))

alert-Quiet : (cfg : Config) (a : Alert) → Quiet (process_alert cfg a true)
unfolding process_alert
alert-Quiet cfg a = bind_rule _ _ (count-Quiet _) λ _. if_rule _ _ _ (warn-Quiet _) (
    bind_rule _ _ (duplicate-Quiet cfg _) λ d.
      if_rule d _ _ (bind_rule _ _ (count-Quiet _) λ _. warn-Quiet _) (dispatch-Quiet cfg a _ _))

batch-Quiet : (cfg : Config) (xs : List Alert) → Quiet (process cfg xs true)
unfolding process
batch-Quiet cfg [] = return-Quiet tt
batch-Quiet cfg (x ∷ xs) = bind_rule _ _ (alert-Quiet cfg x) λ _. batch-Quiet cfg xs

-- A dry run of any batch, under any rules, leaves the incident files, the effects and the whole rest of
-- the service's world as they were, and adds no entry to the alert history.
pub process-dry_run :
    (cfg : Config) (alerts : List Alert) (p : Processor)
    → ((process cfg alerts true p).1.world ≡ p.world)
      × ((process cfg alerts true p).1.history ≡ p.history)
process-dry_run cfg alerts p =
    ((batch-Quiet cfg alerts).world_kept p, (batch-Quiet cfg alerts).history_kept p)
