-- ===== src/Incident/Listing.antt =====
-- Store.ListForMonth of internal/incident/store.go, and the searches of
-- internal/incident/service.go over its result: active, latest and suggested incidents. The order
-- of the files stands for the order in which filepath.Walk and os.ReadDir visit them.
pub mod Searches
use Prim.Native.String
use health_monitor_sre_engin.Common.{
  ℕ, ltb, String, Bool, true, false, not, ◌&&◌, ◌||◌, Option, none, some, List, [], ◌∷◌, ◌++◌,
  if◌then◌else◌, str_eq, is_empty, is_nil, trim_space, has_prefix, equal_fold, filter, find, any,
  head_or_none,
}
use health_monitor_sre_engin.Flow.{Flow, flow_ids, flows_intersect, member}
use health_monitor_sre_engin.Incident.{State, unset, suggested, resolved, Incident}
use health_monitor_sre_engin.Incident.Store.{
  FilePath, partition, root, is_partitioned, File, valid, invalid, unreadable, Files,
}

-- What a listing reports beside the incidents.
pub data Warning : Type 0 where
  failed_to_read invalid_file_text : FilePath → Warning

-- `idMap` is the list `ids`.
pub record Found : Type 0 where
  pub incidents : List Incident
  pub warnings : List Warning
  pub ids : List String

abbrev file_name : FilePath → String
file_name (partition y m id) = String.◌++◌ id ".json"
file_name (root id) = String.◌++◌ id ".json"

-- one file of the walk: loadFromFile and the test for an id already seen
unfoldable pub add_file : FilePath → File → Found → Found
unfolding member
add_file p (valid inc) found =
    if member inc.id found.ids
    then found
    else record found { incidents = found.incidents ++ inc ∷ []; ids = inc.id ∷ found.ids }
add_file p invalid found = record found { warnings = found.warnings ++ invalid_file_text p ∷ [] }
add_file p unreadable found = record found { warnings = found.warnings ++ failed_to_read p ∷ [] }

-- One pass: over the partitioned files, or over those at the root.
unfoldable pub scan : Bool → String → Files → Found → Found
unfolding add_file has_prefix
scan partitioned prefix [] found = found
scan partitioned prefix ((p, f) ∷ fs) found =
    let here = if partitioned then is_partitioned p else not (is_partitioned p) in
    let wanted = is_empty prefix || has_prefix (file_name p) prefix in
    scan partitioned prefix fs (if here && wanted then add_file p f found else found)

-- sort.Slice, the newest first; it leaves the order of equal times open
unfoldable pub insert_newest : Incident → List Incident → List Incident
insert_newest i [] = i ∷ []
insert_newest i (j ∷ js) =
    if ltb i.created_at j.created_at then j ∷ insert_newest i js else i ∷ j ∷ js

unfoldable pub sort_newest : List Incident → List Incident
unfolding insert_newest
sort_newest [] = []
sort_newest (i ∷ is) = insert_newest i (sort_newest is)

-- ListForMonth; the prefix is "INC-" with year and month, or empty. Its error is always nil.
unfoldable pub list_for_month : String → Files → List Incident × List Warning
list_for_month prefix fs =
    let found =
      scan false prefix fs
        (scan true prefix fs (record { incidents = []; warnings = []; ids = [] })) in
    (sort_newest found.incidents, found.warnings)

-- Store.List
unfoldable pub list : Files → List Incident × List Warning
list fs = list_for_month "" fs

-- the tests of activeIncidents, on the state and on the profile
abbrev pub active_state : State → Bool
active_state unset = false
active_state resolved = false
active_state suggested = false
active_state _ = true

abbrev pub is_suggested : Incident → Bool
is_suggested i = elim i.state [ suggested ↦ true | _ ↦ false ]

abbrev pub with_profile : String → Incident → Incident
with_profile current i = if is_empty i.profile then record i { profile = current } else i

unfoldable pub is_active : String → Incident → Bool
is_active current i =
    not (is_empty (trim_space i.id))
    && str_eq (with_profile current i).profile current
    && active_state i.state

unfoldable pub collect_active : String → List Incident → List Incident
collect_active current [] = []
collect_active current (i ∷ is) =
    let rest = collect_active current is in
    if is_active current i then with_profile current i ∷ rest else rest

-- Service.activeIncidents
unfoldable pub active_incidents : String → Files → List Incident × List Warning
active_incidents current fs = (collect_active current (list fs).0, (list fs).1)

-- the shared part of the two finders: by service name where the service has no flow, else by a
-- common flow
abbrev find_by_name : String → List Incident → Option Incident
find_by_name service incidents =
    find (λ i. equal_fold (trim_space i.service) (trim_space service)) incidents

abbrev shares_flow : Option (List Flow) → List String → Incident → Bool
shares_flow flows ids i = elim (flow_ids flows i.service) [
  | none ↦ false
  | some js ↦ flows_intersect ids js
]

abbrev pub find_by_ids :
    Option (List String) → Option (List Flow) → String → List Incident → Option Incident
find_by_ids none flows service incidents = find_by_name service incidents
find_by_ids (some ids) flows service incidents =
    if is_nil ids then find_by_name service incidents else find (shares_flow flows ids) incidents

unfoldable pub find_by_flow : Option (List Flow) → String → List Incident → Option Incident
find_by_flow flows service incidents = find_by_ids (flow_ids flows service) flows service incidents

-- Service.FindActiveByServiceFlow
unfoldable pub find_active_by_service_flow :
    Option (List Flow) → String → String → Files → Option Incident × List Warning
find_active_by_service_flow flows current service fs =
    let (incidents, warnings) = active_incidents current fs in
    (if is_nil incidents then none else find_by_flow flows service incidents, warnings)

-- Service.FindSuggestedByServiceFlow
unfoldable pub find_suggested_by_service_flow :
    Option (List Flow) → String → Files → Option Incident × List Warning
find_suggested_by_service_flow flows service fs =
    let (incidents, warnings) = list fs in
    let proposed = filter is_suggested incidents in
    (if is_nil proposed then none else find_by_flow flows service proposed, warnings)

-- Service.getLatest, Service.getActive
unfoldable pub get_latest : Files → Option Incident
get_latest fs = head_or_none (list fs).0

pub data Active : Type 0 where
  no_active : Active
  one_active : Incident → Active
  multiple_active : Active

abbrev single : List Incident → Active
single [] = no_active
single (i ∷ []) = one_active i
single (i ∷ j ∷ is) = multiple_active

unfoldable pub get_active : String → Files → Active
get_active current fs = single (active_incidents current fs).0
