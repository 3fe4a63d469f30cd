-- ===== src/Incident/Service/Outcomes.antt =====
-- What calls of internal/incident/service.go return: success on working storage, refusal by the
-- transition table, and the lost write of Resolve.
use health_monitor_sre_engin.Common.{
  ℕ, ◌+◌, String, Bool, true, false, sym, ap, ◌∙◌, [], ◌++◌, Option, none, some, List, ◌∷◌, ◌≡◌,
  ◌≢◌, refl, is_empty, trim_space, arith, ◌⊎◌, inl, inr, Bool-cases, eq_iff, eq_refl,
}
use health_monitor_sre_engin.Incident.{
  State, started, acknowledged, resolved, Event, resolve, Severity, Toil, Incident,
}
use health_monitor_sre_engin.Incident.Transitions.{TransitionError, validate_transition}
use health_monitor_sre_engin.Incident.Store
use health_monitor_sre_engin.Incident.Store.{
  Files, Outcome, write_failed, done, Loaded, loaded, load_failed, StoreError,
}
use health_monitor_sre_engin.Incident.Store.RoundTrip.{load-save}
use health_monitor_sre_engin.Incident.Listing.{
  active_incidents, collect_active, is_active, with_profile, list,
}
use health_monitor_sre_engin.Incident.World.{
  Env, World, Err, transition_error, service_required, title_required, severity_required,
  active_exists, ok, err, ◌>>=◌, now, try_save, save, load, require,
}
use health_monitor_sre_engin.Incident.Service.{actor, has_severity, check_request, start_incident}
use health_monitor_sre_engin.Incident.Service.Analysis.{enrich_analysis}
use health_monitor_sre_engin.Incident.Service.Lifecycle.{
  non_empty, resolve_by_id, closed_with, resolution,
}

-- The call for an incident whose state the table does not allow to be resolved returns the table's
-- error and changes nothing, when an id and a summary are given and the incident can be loaded.
pub resolve_by_id_refused :
    (env : Env) (id summary user : String) (toil : Option Toil) (w : World) (b : Incident)
    (e : TransitionError)
    → is_empty (trim_space id) ≡ false
    → is_empty (trim_space summary) ≡ false
    → Store.load (trim_space id) w.files ≡ loaded b
    → validate_transition b.state resolved ≡ some e
    → resolve_by_id env id summary user toil w ≡ (err (transition_error e), w)
unfolding resolve_by_id non_empty load require ◌>>=◌
resolve_by_id_refused env id summary user toil w b e h k l v = rw (h, k, l, v) refl

-- the incident that ResolveByID makes of `b`
abbrev pub resolved_form : Env → Incident → String → String → Option Toil → ℕ → Incident
resolved_form env b summary user toil t =
    closed_with b (resolution env user summary t) summary toil (some (enrich_analysis env.flows b))

-- the world after a write that ends well
abbrev written : Incident → World → World
written c w = record w { files = (Store.save done c w.files).1; writes = w.writes + 1 }

save_ok :
    (c : Incident) (fs : Files)
    → is_empty (trim_space c.id) ≡ false
    → (Store.save done c fs).0 ≡ none
unfolding Store.save
save_ok c fs n = rw n refl

save-written :
    (c : Incident) (w : World)
    → is_empty (trim_space c.id) ≡ false
    → w.outcomes w.writes ≡ done
    → save c w ≡ (ok tt, written c w)
unfolding save try_save ◌>>=◌
save-written c w n d = rw (d, save_ok c w.files n) refl

done_ne : done ≢ write_failed
done_ne = ground arith

-- What resolving `b` has made of it: it is resolved, with the summary and the toil that were given and what was
-- found out of it, and a last event by the caller says so. The rest is as it was.
pub record IsResolution (env : Env) (summary user : String) (toil : Option Toil) (t : ℕ)
    (b c : Incident) : Type 0 where
  pub is_resolved : c.state ≡ resolved
  pub same_id : c.id ≡ b.id
  pub same_severity : c.severity ≡ b.severity
  pub same_service : c.service ≡ b.service
  pub same_profile : c.profile ≡ b.profile
  pub summarised : c.summary ≡ trim_space summary
  pub with_toil : c.toil ≡ toil
  pub analysed : c.analysis ≡ some (enrich_analysis env.flows b)
  pub at_time : c.updated_at ≡ t
  pub last_event : Event
  pub history : c.events ≡ b.events ++ last_event ∷ []
  pub event_type : last_event.type ≡ resolve
  pub event_time : last_event.timestamp ≡ t
  pub event_user : last_event.user ≡ actor env user
  pub event_message : last_event.message ≡ trim_space summary

resolved_form-IsResolution :
    (env : Env) (b : Incident) (summary user : String) (toil : Option Toil) (t : ℕ)
    → IsResolution env summary user toil t b (resolved_form env b summary user toil t)
resolved_form-IsResolution env b summary user toil t = record {
  is_resolved = refl;
  same_id = refl;
  same_severity = refl;
  same_service = refl;
  same_profile = refl;
  summarised = refl;
  with_toil = refl;
  analysed = refl;
  at_time = refl;
  last_event = resolution env user summary t;
  history = refl;
  event_type = refl;
  event_time = refl;
  event_user = refl;
  event_message = refl;
}

resolve_by_id-written :
    (env : Env) (id summary user : String) (toil : Option Toil) (w : World) (b : Incident)
    → is_empty (trim_space id) ≡ false
    → is_empty (trim_space summary) ≡ false
    → Store.load (trim_space id) w.files ≡ loaded b
    → is_empty (trim_space b.id) ≡ false
    → validate_transition b.state resolved ≡ none
    → w.outcomes w.writes ≡ done
    → w.outcomes (w.writes + 1) ≡ done
    → ((resolve_by_id env id summary user toil w).0
        ≡ ok (resolved_form env b summary user toil (w.clock w.reads)))
      × (Store.load b.id (resolve_by_id env id summary user toil w).1.files
          ≡ loaded (resolved_form env b summary user toil (w.clock w.reads)))
unfolding resolve_by_id non_empty load require now ◌>>=◌
resolve_by_id-written env id summary user toil w b h k l n v d d' =
    let c = resolved_form env b summary user toil (w.clock w.reads) in
    let u = record w { reads = w.reads + 1 } in
    rw (h, k, l, v, save-written c u n d, d') (refl, load-save done c (written c u).files n done_ne)

-- With an id and a summary, and an incident that is loaded under its id in a state that the table
-- lets be resolved: if both writes end well, ResolveByID returns the incident in the state resolved, with the
-- given summary and toil, one event more and its id, severity, service and profile as before, and the id is
-- afterwards loaded as what was returned.
pub resolve_by_id_succeeds :
    (env : Env) (id summary user : String) (toil : Option Toil) (w : World) (b : Incident)
    → is_empty (trim_space id) ≡ false
    → is_empty (trim_space summary) ≡ false
    → Store.load (trim_space id) w.files ≡ loaded b
    → is_empty (trim_space b.id) ≡ false
    → validate_transition b.state resolved ≡ none
    → w.outcomes w.writes ≡ done
    → w.outcomes (w.writes + 1) ≡ done
    → (c : Incident) × IsResolution env summary user toil (w.clock w.reads) b c
      × ((resolve_by_id env id summary user toil w).0 ≡ ok c)
      × (Store.load b.id (resolve_by_id env id summary user toil w).1.files ≡ loaded c)
resolve_by_id_succeeds env id summary user toil w b h k l n v d d' =
    let (result, stored) = resolve_by_id-written env id summary user toil w b h k l n v d d' in
    (_, resolved_form-IsResolution env b summary user toil (w.clock w.reads), result, stored)

checked :
    (service : String) (severity : Severity) (title : String) (w : World)
    → (check_request service severity title w ≡ (ok tt, w))
      ⊎ ((e : Err) × (check_request service severity title w ≡ (err e, w)))
unfolding check_request
checked service severity title w = elim (Bool-cases (is_empty (trim_space service))) [
  | inl a ↦ inr (service_required, rw a refl)
  | inr a ↦ elim (Bool-cases (is_empty (trim_space title))) [
    | inl b ↦ inr (title_required, rw (a, b) refl)
    | inr b ↦ elim (Bool-cases (has_severity severity)) [
      | inl c ↦ inl (rw (a, b, c) refl)
      | inr c ↦ inr (severity_required, rw (a, b, c) refl)
    ]
  ]
]

-- the incident is in the list
abbrev pub Has : Incident → List Incident → Type 0
Has i [] = ⊥
Has i (j ∷ js) = (i ≡ j) ⊎ Has i js

-- started or acknowledged
abbrev pub IsOpen : State → Type 0
IsOpen s = (s ≡ started) ⊎ (s ≡ acknowledged)

open-is_active :
    (current : String) (i : Incident)
    → is_empty (trim_space i.id) ≡ false
    → i.profile ≡ current
    → IsOpen i.state
    → is_active current i ≡ true
unfolding is_active
open-is_active current i named profile live =
    let same = (eq_iff i.profile current).1 profile in
    elim (Bool-cases (is_empty i.profile)) [
      | inl e ↦ elim live [
        | inl s ↦ rw (e, named, eq_refl current, s) refl
        | inr s ↦ rw (e, named, eq_refl current, s) refl
      ]
      | inr e ↦ elim live [
        | inl s ↦ rw (e, named, same, s) refl
        | inr s ↦ rw (e, named, same, s) refl
      ]
    ]

collected :
    (current : String) (i : Incident) (is : List Incident)
    → Has i is
    → is_active current i ≡ true
    → (b : Incident) × ((bs : List Incident) × (collect_active current is ≡ b ∷ bs))
unfolding collect_active
collected current i [] h a = absurd h
collected current i (j ∷ js) h a = elim (Bool-cases (is_active current j)) [
  | inl t ↦ (with_profile current j, (collect_active current js, rw t refl))
  | inr f ↦ elim h [
    | inl e ↦ absurd (not_both (sym a ∙ ap (is_active current) e ∙ f))
    | inr rest ↦ let (b, (bs, e)) = collected current i js rest a in (b, (bs, rw f e))
  ]
]
  where
    not_both : ◌≢◌ {A = Bool} true false
    not_both e = ground (arith, e)

-- Start never adds a second active incident to a profile: where an incident of the profile is listed that has
-- an id and is started or acknowledged, Start returns an error and changes nothing, whatever it is called
-- with.
pub start_incident-refused :
    (env : Env) (service : String) (severity : Severity) (title user : String) (w : World)
    (i : Incident)
    → Has i (list w.files).0
    → is_empty (trim_space i.id) ≡ false
    → i.profile ≡ env.profile
    → IsOpen i.state
    → (e : Err) × (start_incident env service severity title user w ≡ (err e, w))
unfolding start_incident active_incidents ◌>>=◌
start_incident-refused env service severity title user w i listed named profile live =
    let (b, (bs, h)) =
      collected env.profile i (list w.files).0 listed
        (open-is_active env.profile i named profile live) in
    elim (checked service severity title w) [
      | inl c ↦ (active_exists, rw (c, h) refl)
      | inr (e, c) ↦ (e, rw c refl)
    ]
