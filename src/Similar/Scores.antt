-- ===== src/Similar/Scores.antt =====
-- CalculateSimilarity of internal/incident/similarity.go and the functions it calls. The arithmetic of
-- float64 is a parameter, of which nothing is assumed. `none` stands for a run that Go stops for an index
-- out of range. The message of an incident's first log error, which the model of an incident leaves out,
-- is a parameter too.
use health_monitor_sre_engin.Common.{
  ℕ, ◌+◌, ◌-◌, String, Bool, not, ◌&&◌, ◌||◌, Option, none, some, List, [], ◌∷◌, ◌++◌, ltb, ◌==◌,
  if◌then◌else◌, str_eq, length, bytes, split, contains, is_empty, trim_space, to_lower, equal_fold,
  Dict,
}
use health_monitor_sre_engin.Incident.{Analysis}
use health_monitor_sre_engin.Similar.Loops.{◌>>=◌}
use health_monitor_sre_engin.Similar.Distance.{levenshtein_distance}
use health_monitor_sre_engin.Similar.Terms.{extract_terms, count_common}
use health_monitor_sre_engin.Similar.Aliases.{are_aliases, service_aliases}

pub record Floats (F : Type 0) : Type 0 where
  -- the first number divided by 10 to the second
  pub literal : ℕ → ℕ → F
  pub of_int : ℕ → F
  pub plus : F → F → F
  pub minus : F → F → F
  pub times : F → F → F
  pub over : F → F → F
  pub less : F → F → Bool
  -- time.Since(t).Hours(), for the time of the call and t
  pub hours_since : ℕ → ℕ → F

-- max
unfoldable pub max_of : ℕ → ℕ → ℕ
max_of a b = if ltb b a then a else b

abbrev pub Score : Type 0 → Type 0
Score F = F × List String

-- the parts where there are exactly two
abbrev pub two_parts : List String → Option (String × String)
two_parts (source ∷ target ∷ []) = some (source, target)
two_parts _ = none

module _ {F : Type 0} (ops : Floats F) where
  abbrev nil : F
  nil = ops.literal 0 0

  -- the fuzzy part of compareComponents
  unfoldable pub compare_fuzzy : String → String → Option F
  compare_fuzzy c1 c2 = do
    distance ← levenshtein_distance (bytes c1) (bytes c2)
    let max_len = max_of (length (bytes c1)) (length (bytes c2))
    let similarity =
        ops.minus (ops.literal 1 0) (ops.over (ops.of_int distance) (ops.of_int max_len))
    some (
        if max_len == 0
        then nil
        else if ops.less (ops.literal 7 1) similarity
        then similarity
        else nil)

  unfoldable pub compare_cleaned : String → String → Option F
  compare_cleaned c1 c2 =
      if str_eq c1 c2
      then some (ops.literal 1 0)
      else if are_aliases service_aliases c1 c2
      then some (ops.literal 95 2)
      else if contains c1 c2 || contains c2 c1
      then some (ops.literal 9 1)
      else compare_fuzzy c1 c2

  unfoldable pub compare_components : String → String → Option F
  compare_components comp1 comp2 =
      if is_empty comp1 || is_empty comp2
      then some nil
      else compare_cleaned (to_lower (trim_space comp1)) (to_lower (trim_space comp2))

  unfoldable pub compare_parts : Option (String × String) → Option (String × String) → Option F
  compare_parts (some (source1, target1)) (some (source2, target2)) = do
    target_match ← compare_components target1 target2
    source_match ← compare_components source1 source2
    some (
        ops.plus (ops.times target_match (ops.literal 7 1))
          (ops.times source_match (ops.literal 3 1)))
  compare_parts _ _ = some nil

  unfoldable pub compare_dependencies : String → String → Option F
  compare_dependencies dep1 dep2 =
      let d1 = to_lower (trim_space dep1) in
      let d2 = to_lower (trim_space dep2) in
      if is_empty dep1 || is_empty dep2
      then some nil
      else if str_eq d1 d2
      then some (ops.literal 1 0)
      else compare_parts (two_parts (split d1 "->")) (two_parts (split d2 "->"))

  unfoldable pub compare_error_signatures : String → String → F
  compare_error_signatures sig1 sig2 =
      let s1 = to_lower (trim_space sig1) in
      let s2 = to_lower (trim_space sig2) in
      if is_empty sig1 || is_empty sig2
      then nil
      else if str_eq s1 s2
      then ops.literal 1 0
      else if contains s1 s2 || contains s2 s1
      then ops.literal 8 1
      else nil

  -- the Jaccard index of two sets of terms
  unfoldable pub jaccard : Dict Bool → Dict Bool → F
  jaccard terms1 terms2 =
      let intersection = count_common terms1 terms2 in
      let all = (length terms1 + length terms2) - intersection in
      if (length terms1 == 0) || (length terms2 == 0)
      then nil
      else if all == 0
      then nil
      else ops.over (ops.of_int intersection) (ops.of_int all)

  unfoldable pub pattern_similarity : String → String → F
  pattern_similarity pattern1 pattern2 =
      if is_empty pattern1 || is_empty pattern2
      then nil
      else jaccard (extract_terms pattern1) (extract_terms pattern2)

  -- `if sim > 0 { score += sim * weight; if sim > limit { matched = append(matched, name) } }`
  unfoldable pub weigh : F → F → String → F → Score F → Score F
  weigh weight limit name sim (score, matched) =
      if ops.less nil sim
      then (
        ops.plus score (ops.times sim weight),
        if ops.less limit sim then matched ++ name ∷ [] else matched,
      )
      else (score, matched)

  -- the category's step
  unfoldable pub weigh_category : String → String → Score F → Score F
  weigh_category cat1 cat2 (score, matched) =
      if not (is_empty cat1) && (not (is_empty cat2) && equal_fold cat1 cat2)
      then (ops.plus score (ops.literal 25 2), matched ++ "category" ∷ [])
      else (score, matched)

  -- CalculateSimilarity for two analyses, up to the decay
  unfoldable pub analysis_similarity : Analysis → Analysis → Option (Score F)
  analysis_similarity current historical = do
    component ← compare_components current.component historical.component
    let s1 = weigh (ops.literal 30 2) (ops.literal 8 1) "component" component (nil, [])
    let s2 = weigh_category current.category historical.category s1
    let pattern_sim = pattern_similarity current.pattern historical.pattern
    let s3 = weigh (ops.literal 20 2) (ops.literal 6 1) "pattern" pattern_sim s2
    dependency ← compare_dependencies current.dependency historical.dependency
    let s4 = weigh (ops.literal 15 2) (ops.literal 8 1) "dependency" dependency s3
    let signature = compare_error_signatures current.error_signature historical.error_signature
    some (weigh (ops.literal 10 2) (ops.literal 8 1) "error_signature" signature s4)

  -- the score, and the time of the incident's creation
  unfoldable pub apply_time_decay : ℕ → F → ℕ → F
  apply_time_decay now score incident_time =
      let age_days = ops.over (ops.hours_since now incident_time) (ops.literal 24 0) in
      let slope =
        ops.times (ops.over (ops.minus age_days (ops.literal 30 0)) (ops.literal 150 0))
          (ops.literal 3 1) in
      let factor = ops.minus (ops.literal 1 0) slope in
      if ops.less age_days (ops.literal 30 0)
      then score
      else ops.times score (if ops.less factor (ops.literal 7 1) then ops.literal 7 1 else factor)
