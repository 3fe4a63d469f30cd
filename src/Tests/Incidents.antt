-- ===== src/Tests/Incidents.antt =====
-- The theorems on the incident service and its states, at concrete inputs.
use health_monitor_sre_engin.Common.{
  String, ◌≤◌, length, subst, sym, inl, false, none, some, List, [], ◌∷◌, ◌++◌, ◌≡◌, ◌≢◌, refl,
  is_empty, trim_space, to_upper, to_lower, map_chars, translate, equal_fold, has_prefix, find, any,
  arith,
}
use health_monitor_sre_engin.Incident.{
  State, suggested, started, resolved, other_state, p1, p2, note, Event, Incident,
}
use health_monitor_sre_engin.Incident.Ranks.{parse_severity}
use health_monitor_sre_engin.Incident.Transitions.{
  already_resolved, validate_transition, ◌⟶◌, validate_transition_iff, resolvable, Accepted, end_of,
}
use health_monitor_sre_engin.Incident.Store
use health_monitor_sre_engin.Incident.Store.{Outcome, done, loaded}
use health_monitor_sre_engin.Flow
use health_monitor_sre_engin.Flow.{member}
use health_monitor_sre_engin.Incident.Listing
use health_monitor_sre_engin.Incident.Listing.{active_incidents, find_active_by_service_flow, list}
use health_monitor_sre_engin.Incident.World.{Err, ok, err}
use health_monitor_sre_engin.Incident.Service.{start_incident}
use health_monitor_sre_engin.Incident.Service.Lifecycle.{resolve_by_id}
use health_monitor_sre_engin.Incident.Service.Evolution.{IsKeyed, Evolved}
use health_monitor_sre_engin.Incident.Service.Requests.{
  Request, start_request, acknowledge_request, resolve_request, event_request, run_all,
  run_all-Evolved, resolved_forever,
}
use health_monitor_sre_engin.Incident.Service.Outcomes.{
  Has, IsResolution, resolve_by_id_succeeds, start_incident-refused,
}
use health_monitor_sre_engin.Tests.Samples.{
  sample_id, sample_incident, sample_env, sample_files, sample_world, sample_named, sample_loaded,
  sample-IsKeyed,
}

abbrev day : List Request
day =
    acknowledge_request sample_id "ann"
    ∷ event_request sample_id note "looking" "ann"
    ∷ resolve_request sample_id "fixed" "ann" none
    ∷ start_request "db" p1 "full" "bob" []
    ∷ []

run_all-Evolved_example :
    IsKeyed (run_all sample_env day (sample_world started done)).files
    × ((j : String)
        → Evolved
            (Store.load j (sample_files started))
            (Store.load j (run_all sample_env day (sample_world started done)).files))
run_all-Evolved_example =
    run_all-Evolved sample_env day (sample_world started done) (tt, (tt, (tt, (tt, tt))))
      (sample-IsKeyed started)

resolved_forever_example :
    (c : Incident) × (Store.load sample_id
        (run_all sample_env day (sample_world resolved done)).files
      ≡ loaded c)
    × (c.state ≡ resolved)
    × ((es : List Event) × (c.events ≡ (sample_incident resolved).events ++ es))
resolved_forever_example =
    resolved_forever sample_env day (sample_world resolved done) sample_id
      (sample_incident resolved) (tt, (tt, (tt, (tt, tt)))) (sample-IsKeyed resolved)
      (sample_loaded resolved) refl

fixed_named : is_empty (trim_space "fixed") ≡ false
unfolding trim_space
fixed_named = refl

sample_trimmed : trim_space sample_id ≡ sample_id
unfolding trim_space
sample_trimmed = refl

loaded_trimmed :
    (s : State) → Store.load (trim_space sample_id) (sample_files s) ≡ loaded (sample_incident s)
loaded_trimmed s = rw sample_trimmed (sample_loaded s)

resolve_by_id_succeeds_example :
    (c : Incident) × IsResolution sample_env "fixed" "ann" none 10 (sample_incident started) c
    × ((resolve_by_id sample_env sample_id "fixed" "ann" none (sample_world started done)).0 ≡ ok c)
    × (Store.load sample_id
          (resolve_by_id sample_env sample_id "fixed" "ann" none
            (sample_world started done)).1.files
        ≡ loaded c)
resolve_by_id_succeeds_example =
    resolve_by_id_succeeds sample_env sample_id "fixed" "ann" none (sample_world started done)
      (sample_incident started) sample_named fixed_named (loaded_trimmed started) sample_named
      ((validate_transition_iff started resolved).1 ◌⟶◌.close_started) refl refl

refused_already : validate_transition resolved resolved ≡ some already_resolved
unfolding validate_transition
refused_already = refl

one_listed : (active_incidents "default" (sample_files started)).0 ≡ sample_incident started ∷ []
unfolding active_incidents Listing.collect_active Listing.is_active trim_space list
    Listing.list_for_month Listing.scan Listing.add_file Listing.sort_newest Listing.insert_newest
    member any Store.save Store.put_file Store.remove_file Store.get_path Store.atoi_ok has_prefix
one_listed = refl

all_listed : (list (sample_files started)).0 ≡ sample_incident started ∷ []
unfolding list Listing.list_for_month Listing.scan Listing.add_file Listing.sort_newest
    Listing.insert_newest member any Store.save Store.put_file Store.remove_file Store.get_path
    Store.atoi_ok has_prefix trim_space
all_listed = refl

start_incident-refused_example :
    (e : Err) × (start_incident sample_env "db" p1 "full" "bob" (sample_world started done)
      ≡ (err e, sample_world started done))
start_incident-refused_example =
    start_incident-refused sample_env "db" p1 "full" "bob" (sample_world started done)
      (sample_incident started)
      (subst (λ is. Has (sample_incident started) is) (sym all_listed) (inl refl)) sample_named refl
      (inl refl)

found_by_name :
    (find_active_by_service_flow (some []) "default" "API" (sample_files started)).0
    ≡ some (sample_incident started)
unfolding find_active_by_service_flow Listing.find_by_flow find equal_fold to_lower map_chars
    translate trim_space Flow.flow_ids Flow.impacted_flows
found_by_name = rw one_listed refl

validate_transition_iff_example :
    (validate_transition suggested started ≡ none → suggested ⟶ started)
    × (suggested ⟶ started → validate_transition suggested started ≡ none)
validate_transition_iff_example = validate_transition_iff suggested started

resolvable_example :
    (ts : List State) × Accepted suggested ts × (end_of suggested ts ≡ resolved) × (length ts ≤ 2)
resolvable_example = resolvable suggested (λ x. known x)
  where
    known : (x : String) → suggested ≢ other_state x
    known x = ground arith

parsed : parse_severity " p2 " ≡ some p2
unfolding parse_severity trim_space to_upper
parsed = refl
