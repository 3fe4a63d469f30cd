-- ===== src/Incident/Service/Actions.antt =====
-- internal/incident/service.go: the action items of an incident.
use Prim.Native.String
use health_monitor_sre_engin.Common.{
  ℕ, decimal, ◌+◌, String, Bool, not, List, [], ◌∷◌, ◌++◌, if◌then◌else◌, str_eq, trim_space,
  length, any, filter,
}
use health_monitor_sre_engin.Incident.{ActionItem, ActionPriority, ActionStatus, Incident}
use health_monitor_sre_engin.Incident.World.{
  Env, audited, id_required, description_required, owner_required, new_owner_required,
  item_id_required, item_not_found, Exec, ◌>>=◌, ◌>>◌, pure, raise, now, emit, try_save, save, load,
}
use health_monitor_sre_engin.Incident.Service.Lifecycle.{non_empty}

-- GenerateActionItemID
unfoldable pub generate_action_item_id : String → ℕ → String
unfolding decimal
generate_action_item_id id sequence =
    String.◌++◌ "ACT-" (String.◌++◌ id (String.◌++◌ "-" (decimal sequence)))

abbrev pub with_items : Incident → List ActionItem → ℕ → Incident
with_items i items t = record i { action_items = items; updated_at = t }

abbrev pub new_item :
    Incident → String → String → ActionPriority → ActionStatus → ℕ → ℕ → ActionItem
new_item i description owner priority status due t = record {
  id = generate_action_item_id i.id (length i.action_items + 1);
  description = trim_space description;
  owner = trim_space owner;
  priority = priority;
  status = status;
  due_date = due;
  created_at = t;
  updated_at = t;
}

-- Service.AddActionItem
unfoldable pub add_action_item :
    Env → String → String → String → ActionPriority → ActionStatus → ℕ → Exec ActionItem
unfolding now emit try_save load
add_action_item env id description owner priority status due = do
  non_empty id id_required
  non_empty description description_required
  non_empty owner owner_required
  i ← load (trim_space id)
  t ← now
  let item = new_item i description owner priority status due t
  save (with_items i (i.action_items ++ item ∷ []) t)
  emit (audited id "system" (String.◌++◌ "added action item: " description))
  pure item

abbrev has_item : String → List ActionItem → Bool
has_item item_id items = any (λ a. str_eq a.id (trim_space item_id)) items

-- `break` after the first item with the id
unfoldable pub update_first : String → (ActionItem → ActionItem) → List ActionItem → List ActionItem
update_first item_id f [] = []
update_first item_id f (a ∷ as') =
    if str_eq a.id (trim_space item_id) then f a ∷ as' else a ∷ update_first item_id f as'

-- the shared body of the four methods that update an item
unfoldable pub update_action_item : String → String → (ℕ → ActionItem → ActionItem) → Exec Unit
unfolding any update_first now try_save load
update_action_item id item_id f = do
  i ← load (trim_space id)
  (if has_item item_id i.action_items
      then (do t ← now; u ← now; save (with_items i (update_first item_id (f t) i.action_items) u))
      else raise item_not_found)

-- Service.UpdateActionItemStatus
unfoldable pub update_action_item_status : String → String → ActionStatus → Exec Unit
unfolding update_action_item
update_action_item_status id item_id status = do
  non_empty id id_required
  non_empty item_id item_id_required
  update_action_item id item_id (λ t a. record a { status = status; updated_at = t })

-- Service.UpdateActionItemOwner
unfoldable pub update_action_item_owner : String → String → String → Exec Unit
unfolding update_action_item
update_action_item_owner id item_id owner = do
  non_empty id id_required
  non_empty item_id item_id_required
  non_empty owner new_owner_required
  update_action_item id item_id (λ t a. record a { owner = trim_space owner; updated_at = t })

-- Service.UpdateActionItemPriority
unfoldable pub update_action_item_priority : String → String → ActionPriority → Exec Unit
unfolding update_action_item
update_action_item_priority id item_id priority = do
  non_empty id id_required
  non_empty item_id item_id_required
  update_action_item id item_id (λ t a. record a { priority = priority; updated_at = t })

-- Service.UpdateActionItemDueDate
unfoldable pub update_action_item_due_date : String → String → ℕ → Exec Unit
unfolding update_action_item
update_action_item_due_date id item_id due = do
  non_empty id id_required
  non_empty item_id item_id_required
  update_action_item id item_id (λ t a. record a { due_date = due; updated_at = t })

-- Service.ListActionItems
unfoldable pub list_action_items : String → Exec (List ActionItem)
unfolding load
list_action_items id = do non_empty id id_required; i ← load (trim_space id); pure i.action_items

-- Service.DeleteActionItem: every item with the id goes
unfoldable pub delete_action_item : String → String → Exec Unit
unfolding any filter now try_save load
delete_action_item id item_id = do
  non_empty id id_required
  non_empty item_id item_id_required
  i ← load (trim_space id)
  (if has_item item_id i.action_items
      then (do
        t ← now
        save (with_items i (filter (λ a. not (str_eq a.id (trim_space item_id))) i.action_items) t))
      else raise item_not_found)
