-- ===== src/Similar/Search.antt =====
-- Service.FindSimilarIncidents of internal/incident/service.go, with groupByFix and formatAge of
-- internal/incident/similarity.go.
use Prim.Native.String
use health_monitor_sre_engin.Common.{
  ℕ, ◌-◌, ◌/◌, String, Bool, true, not, ◌&&◌, Option, none, some, List, [], ◌∷◌, ◌++◌, ltb, leb,
  ◌==◌, if◌then◌else◌, str_eq, is_empty, is_nil, trim_space, to_lower, Dict, lookup, insert, filter,
  any, take, length, decimal, ℤ, pos, negsuc,
}
use health_monitor_sre_engin.Incident.{
  Incident, Analysis, State, unset, suggested, started, acknowledged, resolved, other_state,
}
use health_monitor_sre_engin.Similar.Loops.{◌>>=◌}
use health_monitor_sre_engin.Similar.Scores.{Floats, Score}
use health_monitor_sre_engin.Similar.Fallback.{calculate_similarity}

pub record SimilarIncident (F : Type 0) : Type 0 where
  pub incident : Incident
  pub confidence : F
  pub matched_on : List String
  pub age : String

pub record SimilarityOptions (F : Type 0) : Type 0 where
  -- an int, which may be negative
  pub max_results : ℤ
  pub min_confidence : F
  pub days_back : ℕ
  pub include_states : List State

-- string(state)
abbrev state_text : State → String
state_text unset = ""
state_text suggested = "Suggested"
state_text started = "Started"
state_text acknowledged = "Acknowledged"
state_text resolved = "Resolved"
state_text (other_state s) = s

-- formatAge, for the time of the call; a time in the future has no whole hour or day. The rounding of
-- float64 next to a whole hour is left out.
unfoldable pub format_age : ℕ → ℕ → String
unfolding decimal
format_age now t =
    let hours = (now - t) / 3_600_000_000_000 in
    let days = hours / 24 in
    let months = days / 30 in
    if days == 0
    then if hours == 0
      then "just now"
      else if hours == 1
      then "1 hour ago"
      else String.◌++◌ (decimal hours) " hours ago"
    else if days == 1
    then "1 day ago"
    else if ltb days 30
    then String.◌++◌ (decimal days) " days ago"
    else if months == 1
    then "1 month ago"
    else String.◌++◌ (decimal months) " months ago"

abbrev fix_summary : Option Analysis → String
fix_summary none = ""
fix_summary (some a) = to_lower (trim_space a.fix_summary)

-- the key of a group in groupByFix
abbrev pub fix_of : Incident → String
fix_of i = let fix = fix_summary i.analysis in if is_empty fix then "_no_fix_" else fix

abbrev pub Groups : Type 0 → Type 0
Groups F = Dict (List (SimilarIncident F))

-- fmt.Sprintf("(+%d similar)", n)
abbrev similar_note : ℕ → String
similar_note n = String.◌++◌ "(+" (String.◌++◌ (decimal n) " similar)")

-- the filters of FindSimilarIncidents, before the scores
unfoldable pub is_candidate : Incident → ℕ → List State → Incident → Bool
is_candidate current cutoff states i =
    not (str_eq i.id current.id)
    && (not (ltb i.created_at cutoff)
        && (if is_nil states
            then true
            else any (λ s. str_eq (state_text i.state) (state_text s)) states))

module _ {F : Type 0} where
  abbrev pub appended :
      Option (List (SimilarIncident F)) → SimilarIncident F → List (SimilarIncident F)
  appended none s = s ∷ []
  appended (some group) s = group ++ s ∷ []

  -- groups[fix] = append(groups[fix], inc)
  unfoldable pub group_all : List (SimilarIncident F) → Groups F → Groups F
  group_all [] groups = groups
  group_all (s ∷ ss) groups =
      let fix = fix_of s.incident in
      group_all ss (insert fix (appended (lookup fix groups) s) groups)

  unfoldable pub most_recent : SimilarIncident F → List (SimilarIncident F) → SimilarIncident F
  most_recent best [] = best
  most_recent best (s ∷ ss) =
      most_recent (if ltb best.incident.created_at s.incident.created_at then s else best) ss

  -- what stands for a group in the result; no group is empty
  unfoldable pub represent : List (SimilarIncident F) → List (SimilarIncident F)
  represent [] = []
  represent (s ∷ []) = s ∷ []
  represent (s ∷ t ∷ ss) =
      let best = most_recent s (t ∷ ss) in
      record best { matched_on = best.matched_on ++ similar_note (length (t ∷ ss)) ∷ [] } ∷ []

  unfoldable pub represent_all : Groups F → List (SimilarIncident F)
  represent_all [] = []
  represent_all ((_, group) ∷ groups) = represent group ++ represent_all groups

  -- groupByFix; `order` gives the groups in the order in which `range` visits the map
  unfoldable pub group_by_fix :
      (Groups F → Groups F) → List (SimilarIncident F) → List (SimilarIncident F)
  group_by_fix order incidents =
      let groups = group_all incidents [] in
      if leb (length incidents) 1
      then incidents
      else if length groups == length incidents
      then incidents
      else represent_all (order groups)

-- if len(results) > max { results = results[:max] }, which panics for a negative limit
unfoldable pub limit_results : {A : Type 0} → ℤ → List A → Option (List A)
limit_results (pos n) results = some (take n results)
limit_results (negsuc n) results = none

module _ {F : Type 0} (ops : Floats F) where
  -- sort.Slice, the highest confidence first; it leaves the order of equal ones open
  unfoldable pub insert_confident :
      SimilarIncident F → List (SimilarIncident F) → List (SimilarIncident F)
  insert_confident s [] = s ∷ []
  insert_confident s (t ∷ ts) =
      let rest = insert_confident s ts in
      if ops.less s.confidence t.confidence then t ∷ rest else s ∷ t ∷ ts

  unfoldable pub sort_confident : List (SimilarIncident F) → List (SimilarIncident F)
  sort_confident [] = []
  sort_confident (s ∷ ss) = insert_confident s (sort_confident ss)

module _ {F : Type 0} (ops : Floats F) (top_error : Incident → Option String) where
  abbrev pub scored :
      F → ℕ → Incident → Score F → List (SimilarIncident F) → List (SimilarIncident F)
  scored min_confidence now i (score, matched) rest =
      if ops.less score min_confidence
      then rest
      else record {
        incident = i;
        confidence = score;
        matched_on = matched;
        age = format_age now i.created_at;
      }
        ∷ rest

  unfoldable pub score_all : F → ℕ → Incident → List Incident → Option (List (SimilarIncident F))
  score_all min_confidence now current [] = some []
  score_all min_confidence now current (i ∷ is) = do
    s ← calculate_similarity ops top_error now current i
    rest ← score_all min_confidence now current is
    some (scored min_confidence now i s rest)

  -- FindSimilarIncidents among the incidents that the store lists. `cutoff` is
  -- time.Now().AddDate(0, 0, -opts.DaysBack).
  unfoldable pub find_similar_incidents :
      (Groups F → Groups F)
      → ℕ
      → (ℕ → ℕ)
      → SimilarityOptions F
      → Incident
      → List Incident
      → Option (List (SimilarIncident F))
  find_similar_incidents order now cutoff opts current incidents = do
    let test = is_candidate current (cutoff opts.days_back) opts.include_states
    results ← score_all opts.min_confidence now current (filter test incidents)
    limit_results opts.max_results (group_by_fix order (sort_confident ops results))

-- DefaultSimilarityOptions
unfoldable pub default_similarity_options : {F : Type 0} → Floats F → SimilarityOptions F
default_similarity_options ops = record {
  max_results = pos 5;
  min_confidence = ops.literal 6 1;
  days_back = 90;
  include_states = resolved ∷ [];
}
