-- ===== src/Similar/Fallback.antt =====
-- CalculateSimilarity and fallbackSimilarity of internal/incident/similarity.go.
use Prim.Native.String
use health_monitor_sre_engin.Common.{
  ℕ, String, Bool, not, ◌&&◌, Option, none, some, [], ◌∷◌, ◌++◌, if◌then◌else◌, str_eq, contains,
  is_empty, to_lower,
}
use health_monitor_sre_engin.Incident.{Incident, Analysis}
use health_monitor_sre_engin.Incident.Ranks.{severity_text}
use health_monitor_sre_engin.Similar.Loops.{◌>>=◌}
use health_monitor_sre_engin.Similar.Scores.{
  Floats, Score, pattern_similarity, analysis_similarity, apply_time_decay,
}

-- `score += amount`, where the test holds
unfoldable pub add_if : {F : Type 0} → Floats F → Bool → F → Score F → Score F
add_if ops test amount (score, matched) =
    if test then (ops.plus score amount, matched) else (score, matched)

-- the same, and the name is appended to the matched fields
unfoldable pub match_if : {F : Type 0} → Floats F → Bool → F → String → Score F → Score F
match_if ops test amount name (score, matched) =
    if test then (ops.plus score amount, matched ++ name ∷ []) else (score, matched)

module _ {F : Type 0} (ops : Floats F) (top_error : Incident → Option String) where
  abbrev tenths : ℕ → F
  tenths n = ops.literal n 1

  abbrev same_service : Incident → Incident → Bool
  same_service current historical = str_eq current.service historical.service

  -- where one of the two has an analysis
  unfoldable pub match_partial :
      Option Analysis → Option Analysis → Incident → Incident → Score F → Score F
  match_partial (some a) none current historical s =
      add_if ops (same_service current historical) (tenths 2) s
  match_partial none (some a) current historical s =
      let text = to_lower (String.◌++◌ current.title (String.◌++◌ " " current.summary)) in
      let keyword = not (is_empty a.category) && contains text (to_lower a.category) in
      match_if ops (same_service current historical && keyword) (tenths 2) "category_keyword"
        (add_if ops (same_service current historical) (tenths 3) s)
  match_partial _ _ current historical s = s

  unfoldable pub match_logs : Option String → Option String → Score F → Score F
  match_logs (some current) (some historical) s =
      let alike = pattern_similarity ops current historical in
      match_if ops (ops.less (tenths 5) alike) (ops.times alike (tenths 3)) "log_pattern" s
  match_logs _ _ s = s

  unfoldable pub match_title : String → String → Score F → Score F
  match_title current historical (score, matched) =
      let alike = pattern_similarity ops current historical in
      if ops.less (tenths 3) alike
      then (
        ops.plus score (ops.times alike (tenths 2)),
        if ops.less (tenths 6) alike then matched ++ "title" ∷ [] else matched,
      )
      else (score, matched)

  -- `if score > 0.5 { score = 0.5 }`
  unfoldable pub cap_half : F → F
  cap_half score = if ops.less (tenths 5) score then tenths 5 else score

  unfoldable pub fallback_similarity : ℕ → Incident → Incident → Score F
  fallback_similarity now current historical =
      let s1 =
        match_if ops (not (is_empty current.service) && same_service current historical) (tenths 4)
          "service" (ops.literal 0 0, []) in
      let s2 = match_partial current.analysis historical.analysis current historical s1 in
      let s3 = match_logs (top_error current) (top_error historical) s2 in
      let same_grade =
        str_eq (severity_text current.severity) (severity_text historical.severity) in
      let s4 = add_if ops same_grade (tenths 1) s3 in
      let (score, matched) = match_title current.title historical.title s4 in
      (cap_half (apply_time_decay ops now score historical.created_at), matched)

  abbrev decayed : ℕ → ℕ → Score F → Score F
  decayed now created (score, matched) = (apply_time_decay ops now score created, matched)

  abbrev pub of_analyses :
      ℕ → Incident → Incident → Option Analysis → Option Analysis → Option (Score F)
  of_analyses now current historical (some a) (some b) = do
    s ← analysis_similarity ops a b
    some (decayed now historical.created_at s)
  of_analyses now current historical _ _ = some (fallback_similarity now current historical)

  -- CalculateSimilarity at the time `now`, for incidents that are there
  unfoldable pub calculate_similarity : ℕ → Incident → Incident → Option (Score F)
  calculate_similarity now current historical =
      of_analyses now current historical current.analysis historical.analysis
