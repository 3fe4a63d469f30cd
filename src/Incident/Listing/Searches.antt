-- ===== src/Incident/Listing/Searches.antt =====
-- What the searches of the service return, and the order of a listing.
use health_monitor_sre_engin.Common.{
  ℕ, ◌≤◌, ltb, String, true, false, not, ◌&&◌, Option, none, some, List, [], ◌∷◌, ◌≡◌, inl, inr,
  if◌then◌else◌, str_eq, eq_iff, is_empty, trim_space, All, All-find, is_nil, arith, Bool-cases,
}
use health_monitor_sre_engin.Flow.{Flow, flow_ids}
use health_monitor_sre_engin.Incident.{Incident}
use health_monitor_sre_engin.Incident.Store.{Files}
use health_monitor_sre_engin.Incident.Listing.{
  insert_newest, sort_newest, list_for_month, list, active_state, with_profile, is_active,
  collect_active, active_incidents, find_by_flow, find_by_ids, find_active_by_service_flow,
}

-- an incident of the profile that has an id and is neither new, suggested nor resolved
pub record IsActive (current : String) (i : Incident) : Type 0 where
  pub named : is_empty (trim_space i.id) ≡ false
  pub profile : i.profile ≡ current
  pub live : active_state i.state ≡ true

passed :
    (current : String) (i : Incident)
    → is_active current i ≡ true
    → IsActive current (with_profile current i)
unfolding is_active
passed current i h = elim (Bool-cases (is_empty i.profile)) [
  | inl e ↦ rw e (from_test (record i { profile = current }) (rw e at h))
  | inr e ↦ rw e (from_test i (rw e at h))
]
  where
    from_test :
        (j : Incident)
        → (not (is_empty (trim_space j.id)) && str_eq j.profile current && active_state j.state)
          ≡ true
        → IsActive current j
    from_test j h = record {
      named = ground (arith, h);
      profile = (eq_iff j.profile current).0 (ground (arith, h));
      live = ground (arith, h);
    }

collect_active-IsActive :
    (current : String) (is : List Incident) → All (IsActive current) (collect_active current is)
unfolding collect_active
collect_active-IsActive current [] = tt
collect_active-IsActive current (i ∷ is) = elim (Bool-cases (is_active current i)) [
  | inl e ↦ rw e (passed current i e, collect_active-IsActive current is)
  | inr e ↦ rw e (collect_active-IsActive current is)
]

-- Every incident that activeIncidents returns has an id, is of the current profile and is in an active
-- state: not new, not suggested and not resolved.
pub active_incidents-IsActive :
    (current : String) (fs : Files) → All (IsActive current) (active_incidents current fs).0
unfolding active_incidents
active_incidents-IsActive current fs = collect_active-IsActive current (list fs).0

-- no incident of the list is newer than the one before it
abbrev pub IsNewestFirst : List Incident → Type 0
IsNewestFirst [] = Unit
IsNewestFirst (i ∷ is) = All (λ j. j.created_at ≤ i.created_at) is × IsNewestFirst is

All-weaken :
    (a b : ℕ) (is : List Incident)
    → a ≤ b
    → All (λ j. j.created_at ≤ a) is
    → All (λ j. j.created_at ≤ b) is
All-weaken a b [] h k = tt
All-weaken a b (i ∷ is) h k = (omega (arith, h, k.0), All-weaken a b is h k.1)

insert_newest-All :
    (n : ℕ) (i : Incident) (js : List Incident)
    → i.created_at ≤ n
    → All (λ j. j.created_at ≤ n) js
    → All (λ j. j.created_at ≤ n) (insert_newest i js)
unfolding insert_newest
insert_newest-All n i [] h k = (h, tt)
insert_newest-All n i (j ∷ js) h k = elim (Bool-cases (ltb i.created_at j.created_at)) [
  | inl e ↦ rw e (k.0, insert_newest-All n i js h k.1)
  | inr e ↦ rw e (h, k)
]

insert_newest-IsNewestFirst :
    (i : Incident) (js : List Incident) → IsNewestFirst js → IsNewestFirst (insert_newest i js)
unfolding insert_newest
insert_newest-IsNewestFirst i [] h = (tt, tt)
insert_newest-IsNewestFirst i (j ∷ js) h = elim (Bool-cases (ltb i.created_at j.created_at)) [
  | inl e ↦ rw e (
    insert_newest-All j.created_at i js (ground (arith, e)) h.0,
    insert_newest-IsNewestFirst i js h.1,
  )
  | inr e ↦
      rw e ((ground (arith, e), All-weaken j.created_at i.created_at js (ground (arith, e)) h.0), h)
]

sort_newest-IsNewestFirst : (is : List Incident) → IsNewestFirst (sort_newest is)
unfolding sort_newest
sort_newest-IsNewestFirst [] = tt
sort_newest-IsNewestFirst (i ∷ is) =
    insert_newest-IsNewestFirst i (sort_newest is) (sort_newest-IsNewestFirst is)

-- Whatever files there are, List returns the incidents with the newest first.
pub list-IsNewestFirst : (fs : Files) → IsNewestFirst (list fs).0
unfolding list list_for_month
list-IsNewestFirst fs = sort_newest-IsNewestFirst _

find_by_flow-All :
    (P : Incident → Type 0) (flows : Option (List Flow)) (service : String) (is : List Incident)
    (i : Incident)
    → All P is
    → find_by_flow flows service is ≡ some i
    → P i
unfolding find_by_flow
find_by_flow-All P flows service is i h e = by_ids (flow_ids flows service) e
  where
    by_ids : (ids : Option (List String)) → find_by_ids ids flows service is ≡ some i → P i
    by_ids none e = All-find P _ is h e
    by_ids (some []) e = All-find P _ is h e
    by_ids (some (id ∷ ids)) e = All-find P _ is h e

found_active :
    (P : Incident → Type 0) (flows : Option (List Flow)) (service : String) (is : List Incident)
    (i : Incident)
    → All P is
    → (if is_nil is then none else find_by_flow flows service is) ≡ some i
    → P i
found_active P flows service [] i h e = absurd (ground (arith, e))
found_active P flows service (j ∷ js) i h e = find_by_flow-All P flows service (j ∷ js) i h e

-- What FindActiveByServiceFlow finds has an id, is of the current profile and is in an active state.
pub found-IsActive :
    (flows : Option (List Flow)) (current service : String) (fs : Files) (i : Incident)
    → (find_active_by_service_flow flows current service fs).0 ≡ some i
    → IsActive current i
unfolding find_active_by_service_flow
found-IsActive flows current service fs i e =
    found_active (IsActive current) flows service (active_incidents current fs).0 i
      (active_incidents-IsActive current fs) e
