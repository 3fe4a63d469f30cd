-- ===== src/Incident/Service/Items.antt =====
-- The rules of Writes applied to the methods that change action items.
use health_monitor_sre_engin.Common.{ℕ, String, List, refl}
use health_monitor_sre_engin.Incident.{ActionItem, ActionPriority, ActionStatus, Incident}
use health_monitor_sre_engin.Incident.World.{Env, World}
use health_monitor_sre_engin.Incident.Service.Actions.{
  with_items, add_action_item, update_action_item, update_action_item_status,
  update_action_item_owner, update_action_item_priority, update_action_item_due_date,
  delete_action_item,
}
use health_monitor_sre_engin.Incident.Service.Writes.{Advance, Advance-refl, Follows, same}
use health_monitor_sre_engin.Incident.Service.Writes.Rules.{
  pure_rule, now_rule, emit_rule, load_rule, save_rule, last_rule, non_empty_rule, if_rule,
  raise_rule,
}

-- a change of the items
items_changed : (b : Incident) (xs : List ActionItem) (t : ℕ) → Advance b (with_items b xs t)
items_changed b xs t = Advance-refl b (with_items b xs t) refl refl refl

pub add_action_item-Follows :
    (env : Env) (id description owner : String) (p : ActionPriority) (s : ActionStatus) (due : ℕ)
    (w : World)
    → Follows w.files (add_action_item env id description owner p s due) w
unfolding add_action_item
add_action_item-Follows env id description owner p s due w = non_empty_rule _ _ _ w same (
    non_empty_rule _ _ _ w same (
      non_empty_rule _ _ _ w same (
        load_rule _ _ w same λ b e. now_rule _ w (
          save_rule _ b _ _ _ same e (items_changed b _ _)
            λ u h l. emit_rule _ _ u (pure_rule _ _ h)))))

update_action_item-Follows :
    (id item_id : String) (f : ℕ → ActionItem → ActionItem) (w : World)
    → Follows w.files (update_action_item id item_id f) w
unfolding update_action_item
update_action_item-Follows id item_id f w = load_rule _ _ w same λ b e.
    if_rule _ _ _ w (now_rule _ w (now_rule _ _ (last_rule _ b _ _ same e (items_changed b _ _))))
      (raise_rule _ w same)

pub update_action_item_status-Follows :
    (id item_id : String) (s : ActionStatus) (w : World)
    → Follows w.files (update_action_item_status id item_id s) w
unfolding update_action_item_status
update_action_item_status-Follows id item_id s w =
    non_empty_rule _ _ _ w same
      (non_empty_rule _ _ _ w same (update_action_item-Follows id item_id _ w))

pub update_action_item_owner-Follows :
    (id item_id owner : String) (w : World)
    → Follows w.files (update_action_item_owner id item_id owner) w
unfolding update_action_item_owner
update_action_item_owner-Follows id item_id owner w = non_empty_rule _ _ _ w same (
    non_empty_rule _ _ _ w same
      (non_empty_rule _ _ _ w same (update_action_item-Follows id item_id _ w)))

pub update_action_item_priority-Follows :
    (id item_id : String) (p : ActionPriority) (w : World)
    → Follows w.files (update_action_item_priority id item_id p) w
unfolding update_action_item_priority
update_action_item_priority-Follows id item_id p w =
    non_empty_rule _ _ _ w same
      (non_empty_rule _ _ _ w same (update_action_item-Follows id item_id _ w))

pub update_action_item_due_date-Follows :
    (id item_id : String) (due : ℕ) (w : World)
    → Follows w.files (update_action_item_due_date id item_id due) w
unfolding update_action_item_due_date
update_action_item_due_date-Follows id item_id due w =
    non_empty_rule _ _ _ w same
      (non_empty_rule _ _ _ w same (update_action_item-Follows id item_id _ w))

pub delete_action_item-Follows :
    (id item_id : String) (w : World) → Follows w.files (delete_action_item id item_id) w
unfolding delete_action_item
delete_action_item-Follows id item_id w = non_empty_rule _ _ _ w same (
    non_empty_rule _ _ _ w same (
      load_rule _ _ w same λ b e.
        if_rule _ _ _ w (now_rule _ w (last_rule _ b _ _ same e (items_changed b _ _)))
          (raise_rule _ w same)))
