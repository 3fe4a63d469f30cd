-- ===== src/Flow.antt =====
-- internal/flow: the service catalog (service.go), the services of a flow (normalizeServices of
-- loader.go) and the flow ids of a service (flowIDsForService, flowsIntersect of
-- internal/incident/service.go). SLOs and metadata of a flow are left out.

pub mod Loader
use Prim.Native.String.{compare}
use Prim.Native.Nat.{Ordering}
use health_monitor_sre_engin.Common.{
  String, Bool, true, false, ◌||◌, Option, none, some, List, [], ◌∷◌, map, if◌then◌else◌, str_eq,
  is_empty, is_nil, trim_space, filter, any,
}

pub record Flow : Type 0 where
  pub id : String
  pub name : String
  pub services : List String

-- `_, ok := m[s]` of a map that is used as a set
unfoldable pub member : String → List String → Bool
unfolding any
member s xs = any (λ x. str_eq x s) xs

-- flowHasService
unfoldable pub flow_has_service : Flow → String → Bool
unfolding member
flow_has_service flow service = member service flow.services

-- Catalog.ImpactedFlows
unfoldable pub impacted_flows : String → List Flow → List Flow
unfolding filter flow_has_service
impacted_flows service flows =
    let service = trim_space service in
    if is_empty service then [] else filter (λ f. flow_has_service f service) flows

-- IsDegraded
unfoldable pub is_degraded : Flow → List String → Bool
unfolding any member
is_degraded flow active_services = any (λ s. member s active_services) flow.services

-- flowIDsForService over what flow.LoadOnce returns; `none` is its error, and where the source
-- returns a nil slice the list is empty.
unfoldable pub flow_ids : Option (List Flow) → String → Option (List String)
unfolding impacted_flows
flow_ids none service = none
flow_ids (some flows) service = some (map (λ f. f.id) (impacted_flows service flows))

-- flowsIntersect
unfoldable pub flows_intersect : List String → List String → Bool
unfolding member any
flows_intersect first second =
    if is_nil first || is_nil second then false else any (λ id. member id first) second

-- sort.Strings
abbrev pub text_le : String → String → Bool
text_le s t = elim (compare s t) [ Ordering.gt ↦ false | _ ↦ true ]

unfoldable pub insert_text : String → List String → List String
insert_text s [] = s ∷ []
insert_text s (t ∷ ts) = if text_le s t then s ∷ t ∷ ts else t ∷ insert_text s ts

unfoldable pub sort_texts : List String → List String
unfolding insert_text
sort_texts [] = []
sort_texts (s ∷ ss) = insert_text s (sort_texts ss)

pub data ServicesError : Type 0 where
  no_services empty_service : ServicesError

pub data Services : Type 0 where
  cleaned : List String → Services
  refused : ServicesError → Services

-- The loop of normalizeServices; `clean` holds the names kept so far, the newest first, which are
-- also the keys of `seen`.
unfoldable pub clean_services : List String → List String → Services
unfolding member sort_texts
clean_services [] [] = refused no_services
clean_services [] (c ∷ clean) = cleaned (sort_texts (c ∷ clean))
clean_services (s ∷ rest) clean =
    let service = trim_space s in
    let next = clean_services rest (if member service clean then clean else service ∷ clean) in
    if is_empty service then refused empty_service else next

-- normalizeServices
unfoldable pub normalize_services : List String → Services
unfolding clean_services
normalize_services services =
    if is_nil services then refused no_services else clean_services services []
