-- ===== src/Incident/Service/Openings.antt =====
-- The rules of Writes applied to the methods that open an incident.
use health_monitor_sre_engin.Common.{
  ℕ, String, Bool, true, false, Option, none, some, ◌≡◌, inl, inr, refl, is_empty, trim_space,
  is_nil, Dict,
}
use health_monitor_sre_engin.Incident.{Severity, Links, Incident}
use health_monitor_sre_engin.Incident.Store
use health_monitor_sre_engin.Incident.Store.{Files, StoreError, loaded}
use health_monitor_sre_engin.Incident.World.{
  Env, World, Exec, ◌>>=◌, service_required, title_required, severity_required,
}
use health_monitor_sre_engin.Incident.Listing.{find_active_by_service_flow}
use health_monitor_sre_engin.Incident.Service.{
  generate_observability_links, new_started, new_suggested, open_started, open_suggested,
  check_request, has_severity, none_active, none_for_service, start_incident,
  start_for_service_flow, suggest_incident, save_metadata, set_metadata, start_with_metadata,
  start_for_service_flow_with_metadata, suggest_with_metadata, linked, ignore, refuse_second,
}
use health_monitor_sre_engin.Incident.Service.Writes.{Advance-refl, IsNew, Writes, Follows, same}
use health_monitor_sre_engin.Incident.Service.Writes.Rules.{
  pure_rule, now_rule, emit_rule, load_rule, try_save_rule, allocate_rule, seq_rule, last_rule,
  if_rule, raise_rule,
}

-- an incident that is loaded under its id, and may have got links
links_rule :
    {A : Type 0} {fs : Files} (env : Env) (c : Incident) (f : Incident → Exec A) (w : World)
    → Writes fs w.files
    → Store.load c.id w.files ≡ loaded c
    → ((d : Incident) (v : World) → Writes fs v.files → Follows fs (f d) v)
    → Follows fs (generate_observability_links env c >>= f) w
unfolding generate_observability_links ◌>>=◌
links_rule {A} {fs} env c f w h l k = go env.links refl
  where
    go :
        (g : Option (Incident → Links))
        → env.links ≡ g
        → Follows fs (generate_observability_links env c >>= f) w
    go none e = record { writes = rw e (k c w h).writes }
    go (some g) e =
        let j = record c { links = g c } in
        let m =
          try_save_rule c.id c j (λ r. f (linked c j r)) w h l (Advance-refl c j refl refl refl)
            (λ r v q s. k (linked c j r) v q) in
        record { writes = rw e m.writes }

open_started-Follows :
    {fs : Files} (env : Env) (c : Incident) (w : World)
    → Writes fs w.files
    → Store.load c.id w.files ≡ loaded c
    → Follows fs (open_started env c) w
open_started-Follows env c w h l =
    links_rule env c _ w h l
      λ d v g. emit_rule _ _ v (now_rule _ _ (emit_rule _ _ _ (pure_rule d _ g)))

open_suggested-Follows :
    {fs : Files} (env : Env) (c : Incident) (w : World)
    → Writes fs w.files
    → Store.load c.id w.files ≡ loaded c
    → Follows fs (open_suggested env c) w
open_suggested-Follows env c w h l =
    emit_rule _ _ w
      (links_rule env c _ _ h l λ d v g. now_rule _ _ (emit_rule _ _ _ (pure_rule d _ g)))

check_request-Follows :
    {fs : Files} (service : String) (severity : Severity) (title : String) (w : World)
    → Writes fs w.files
    → Follows fs (check_request service severity title) w
unfolding check_request
check_request-Follows service severity title w h =
    if_rule (is_empty (trim_space service)) _ _ w (raise_rule service_required w h) (
      if_rule (is_empty (trim_space title)) _ _ w (raise_rule title_required w h) (
        if_rule (has_severity severity) _ _ w (pure_rule tt w h)
          (raise_rule severity_required w h)))

refuse_second-Follows :
    {fs : Files} (service : String) (r : Option Incident) (w : World)
    → Writes fs w.files
    → Follows fs (refuse_second service r) w
refuse_second-Follows service none w h = record { writes = h }
refuse_second-Follows service (some i) w h = record { writes = h }

none_for_service-Follows :
    {fs : Files} (env : Env) (service : String) (w : World)
    → Writes fs w.files
    → Follows fs (none_for_service env service) w
none_for_service-Follows env service w h = record {
  writes =
      (refuse_second-Follows service
        (find_active_by_service_flow env.flows env.profile service w.files).0 w h).writes;
}

new_started-IsNew :
    (env : Env) (service : String) (severity : Severity) (title who : String) (t : ℕ)
    → IsNew (new_started env service severity title who t)
unfolding new_started
new_started-IsNew env service severity title who t = record { opened = inl refl }

new_suggested-IsNew :
    (env : Env) (service : String) (severity : Severity) (title who : String) (t : ℕ)
    → IsNew (new_suggested env service severity title who t)
unfolding new_suggested
new_suggested-IsNew env service severity title who t = record { opened = inr refl }

pub start_incident-Follows :
    (env : Env) (service : String) (severity : Severity) (title user : String) (w : World)
    → Follows w.files (start_incident env service severity title user) w
unfolding start_incident
start_incident-Follows env service severity title user w =
    seq_rule _ _ w (check_request-Follows service severity title w same) λ _ v h.
      seq_rule (none_active env) _ v (record { writes = h })
        λ _ u g.
          allocate_rule 3 _ _ u g (new_started-IsNew env service severity title _)
            (open_started-Follows env)

pub start_for_service_flow-Follows :
    (env : Env) (service : String) (severity : Severity) (title user : String) (w : World)
    → Follows w.files (start_for_service_flow env service severity title user) w
unfolding start_for_service_flow
start_for_service_flow-Follows env service severity title user w =
    seq_rule _ _ w (check_request-Follows service severity title w same) λ _ v h.
      seq_rule (none_for_service env service) _ v (none_for_service-Follows env service v h)
        λ _ u g.
          allocate_rule 3 _ _ u g (new_started-IsNew env service severity title _)
            (open_started-Follows env)

pub suggest_incident-Follows :
    (env : Env) (service : String) (severity : Severity) (title user : String) (w : World)
    → Follows w.files (suggest_incident env service severity title user) w
unfolding suggest_incident
suggest_incident-Follows env service severity title user w =
    seq_rule _ _ w (check_request-Follows service severity title w same) λ _ v h.
      allocate_rule 3 _ _ v h (new_suggested-IsNew env service severity title _)
        (open_suggested-Follows env)

save_metadata-Follows :
    {fs : Files} (id : String) (metadata : Dict String) (w : World)
    → Writes fs w.files
    → Follows fs (save_metadata id metadata) w
unfolding save_metadata
save_metadata-Follows id metadata w h =
    load_rule _ _ w h λ b e. last_rule _ b _ w h e (Advance-refl b _ refl refl refl)

ignore-Follows : {fs : Files} (m : Exec Unit) (w : World) → Follows fs m w → Follows fs (ignore m) w
ignore-Follows m w h = record { writes = h.writes }

set_metadata-Follows :
    {fs : Files} (checked : Bool) (metadata : Dict String) (i : Incident) (w : World)
    → Writes fs w.files
    → Follows fs (set_metadata checked metadata i) w
set_metadata-Follows checked metadata i w h = if_rule (is_nil metadata) _ _ w (pure_rule i w h) (
    seq_rule _ _ w
      (if_rule checked _ _ w (save_metadata-Follows i.id metadata w h)
        (ignore-Follows _ w (save_metadata-Follows i.id metadata w h)))
      λ _ v g. pure_rule _ v g)

pub start_with_metadata-Follows :
    (env : Env) (service : String) (severity : Severity) (title user : String)
    (metadata : Dict String) (w : World)
    → Follows w.files (start_with_metadata env service severity title user metadata) w
unfolding start_with_metadata
start_with_metadata-Follows env service severity title user metadata w =
    seq_rule _ _ w (start_incident-Follows env service severity title user w)
      λ i v h. set_metadata-Follows true metadata i v h

pub start_for_service_flow_with_metadata-Follows :
    (env : Env) (service : String) (severity : Severity) (title user : String)
    (metadata : Dict String) (w : World)
    → Follows w.files
        (start_for_service_flow_with_metadata env service severity title user metadata)
        w
unfolding start_for_service_flow_with_metadata
start_for_service_flow_with_metadata-Follows env service severity title user metadata w =
    seq_rule _ _ w (start_for_service_flow-Follows env service severity title user w)
      λ i v h. set_metadata-Follows false metadata i v h

pub suggest_with_metadata-Follows :
    (env : Env) (service : String) (severity : Severity) (title user : String)
    (metadata : Dict String) (w : World)
    → Follows w.files (suggest_with_metadata env service severity title user metadata) w
unfolding suggest_with_metadata
suggest_with_metadata-Follows env service severity title user metadata w =
    seq_rule _ _ w (suggest_incident-Follows env service severity title user w)
      λ i v h. set_metadata-Follows false metadata i v h
