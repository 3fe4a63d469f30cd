-- ===== src/Tests/Configs.antt =====
-- The theorems on roles, on the security configuration and on loading flows, at concrete inputs.
use health_monitor_sre_engin.Common.{
  String, true, false, List, [], ◌∷◌, ◌≡◌, ◌↔◌, ◌⊎◌, refl, All, insert, lookup, trim_space,
}
use health_monitor_sre_engin.Access.{RbacConfig, has_permission}
use health_monitor_sre_engin.Access.Decisions.{IsGranted, has_permission_iff}
use health_monitor_sre_engin.Flow.{Flow, normalize_services}
use health_monitor_sre_engin.Flow.Loader.{
  FlowFile, invalid_yaml, parsed, skipped_invalid, loaded, load_files, add_files, add_entries,
  add_entry, sort_flows, insert_flow,
}
use health_monitor_sre_engin.Flow.Loader.Sound.{IsFrom, AreDistinct, load_files_sound}

abbrev roles : RbacConfig
roles = record {
  enabled = true;
  roles = ("operator", "incident:list" ∷ []) ∷ [];
  users = ("ann", "operator") ∷ [];
}

has_permission_iff_example :
    (has_permission roles "ann" "incident:list" ≡ true)
    ↔ ((roles.enabled ≡ false) ⊎ IsGranted roles "ann" "incident:list")
has_permission_iff_example = has_permission_iff roles "ann" "incident:list"

abbrev files : List (String × FlowFile)
files =
    ("a.yaml", parsed ((" pay ", record { name = "Pay"; services = "api" ∷ "db" ∷ [] }) ∷ []))
    ∷ ("b.yaml", invalid_yaml)
    ∷ []

abbrev pay : Flow
pay = record { id = "pay"; name = "Pay"; services = "api" ∷ "db" ∷ [] }

files_load : load_files files ≡ loaded (pay ∷ []) (skipped_invalid "b.yaml" ∷ [])
unfolding load_files add_files add_entries add_entry trim_space lookup normalize_services insert
    sort_flows insert_flow
files_load = refl

load_files_sound_example : All (IsFrom files) (pay ∷ []) × AreDistinct (pay ∷ [])
load_files_sound_example =
    load_files_sound files (pay ∷ []) (skipped_invalid "b.yaml" ∷ []) files_load
