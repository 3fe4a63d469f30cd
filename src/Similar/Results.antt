-- ===== src/Similar/Results.antt =====
-- What FindSimilarIncidents promises of its results.
use mathlib.Core.Option.{some-injective}
use health_monitor_sre_engin.Common.{
  ℕ, zero, suc, ◌≤◌, String, Bool, true, false, Option, none, some, List, [], ◌∷◌, ◌++◌, ◌≡◌, inl,
  inr, refl, ℤ, pos, negsuc, subst, ltb, leb, ◌==◌, Bool-cases, if◌then◌else◌, str_eq, lookup,
  insert, filter, take, length, length-take, All, arith,
}
use health_monitor_sre_engin.Incident.{Incident}
use health_monitor_sre_engin.Similar.Loops.{Returns, Returns-bind, Returns-result}
use health_monitor_sre_engin.Similar.Total.{IsSome-result, calculate_similarity-IsSome}
use health_monitor_sre_engin.Similar.Scores.{Floats}
use health_monitor_sre_engin.Similar.Fallback.{calculate_similarity}
use health_monitor_sre_engin.Similar.Search.{
  SimilarIncident, SimilarityOptions, Groups, group_all, most_recent, represent, represent_all,
  group_by_fix, fix_of, appended, is_candidate, score_all, scored, insert_confident, sort_confident,
  find_similar_incidents, limit_results,
}

module _ {A : Type 0} (P : A → Type 0) where
  All-append : (xs ys : List A) → All P xs → All P ys → All P (xs ++ ys)
  All-append [] ys h k = k
  All-append (x ∷ xs) ys h k = (h.0, All-append xs ys h.1 k)

  All-take : (n : ℕ) (xs : List A) → All P xs → All P (take n xs)
  All-take zero xs h = tt
  All-take (suc n) [] h = tt
  All-take (suc n) (x ∷ xs) h = (h.0, All-take n xs h.1)

module _ {F : Type 0} (P : Incident → F → Type 0) where
  -- a property of the incident and the confidence, which grouping does not change
  abbrev pub Holds : SimilarIncident F → Type 0
  Holds s = P s.incident s.confidence

  abbrev pub HoldsIn : String × List (SimilarIncident F) → Type 0
  HoldsIn entry = All Holds entry.1

  lookup-Holds :
      (fix : String) (groups : Groups F)
      → All HoldsIn groups
      → (group : List (SimilarIncident F)) → lookup fix groups ≡ some group
      → All Holds group
  unfolding lookup
  lookup-Holds fix [] h group e = cc
  lookup-Holds fix ((other, first) ∷ groups) h group e = elim (Bool-cases (str_eq other fix)) [
    | inl t ↦ subst (All Holds) (some-injective first group (rw t at e)) h.0
    | inr t ↦ lookup-Holds fix groups h.1 group (rw t at e)
  ]

  insert-Holds :
      (fix : String) (group : List (SimilarIncident F)) (groups : Groups F)
      → All Holds group
      → All HoldsIn groups
      → All HoldsIn (insert fix group groups)
  unfolding insert
  insert-Holds fix group [] h k = (h, tt)
  insert-Holds fix group ((other, first) ∷ groups) h k =
      ground (arith, insert-Holds fix group groups h)

  group_all-Holds :
      (ss : List (SimilarIncident F)) (groups : Groups F)
      → All Holds ss
      → All HoldsIn groups
      → All HoldsIn (group_all ss groups)
  unfolding group_all
  group_all-Holds [] groups h k = k
  group_all-Holds (s ∷ ss) groups h k =
      group_all-Holds ss _ h.1 (
        insert-Holds (fix_of s.incident) _ groups (added (lookup (fix_of s.incident) groups) refl)
          k)
    where
      added :
          (found : Option (List (SimilarIncident F)))
          → lookup (fix_of s.incident) groups ≡ found
          → All Holds (appended found s)
      added none e = (h.0, tt)
      added (some group) e =
          All-append Holds group (s ∷ []) (lookup-Holds (fix_of s.incident) groups k group e)
            (h.0, tt)

  most_recent-Holds :
      (best : SimilarIncident F) (ss : List (SimilarIncident F))
      → Holds best
      → All Holds ss
      → Holds (most_recent best ss)
  unfolding most_recent
  most_recent-Holds best [] h k = h
  most_recent-Holds best (s ∷ ss) h k =
      most_recent-Holds (if ltb best.incident.created_at s.incident.created_at then s else best) ss
        (newer (ltb best.incident.created_at s.incident.created_at)) k.1
    where
      newer : (test : Bool) → Holds (if test then s else best)
      newer true = k.0
      newer false = h

  represent-Holds :
      (group : List (SimilarIncident F)) → All Holds group → All Holds (represent group)
  unfolding represent
  represent-Holds [] h = tt
  represent-Holds (s ∷ []) h = h
  represent-Holds (s ∷ t ∷ ss) h = (most_recent-Holds s (t ∷ ss) h.0 h.1, tt)

  represent_all-Holds : (groups : Groups F) → All HoldsIn groups → All Holds (represent_all groups)
  unfolding represent_all
  represent_all-Holds [] h = tt
  represent_all-Holds ((fix, group) ∷ groups) h =
      All-append Holds (represent group) (represent_all groups) (represent-Holds group h.0)
        (represent_all-Holds groups h.1)

  group_by_fix-Holds :
      (order : Groups F → Groups F) (ss : List (SimilarIncident F))
      → ((groups : Groups F) → All HoldsIn groups → All HoldsIn (order groups))
      → All Holds ss
      → All Holds (group_by_fix order ss)
  unfolding group_by_fix
  group_by_fix-Holds order ss visits h = elim (Bool-cases (leb (length ss) 1)) [
    | inl few ↦ rw few h
    | inr more ↦ elim (Bool-cases (length (group_all ss []) == length ss)) [
      | inl alone ↦ rw (more, alone) h
      | inr grouped ↦
          rw (more, grouped) (represent_all-Holds _ (visits _ (group_all-Holds ss [] h tt)))
    ]
  ]

  module _ (ops : Floats F) where
    insert_confident-Holds :
        (s : SimilarIncident F) (ss : List (SimilarIncident F))
        → Holds s
        → All Holds ss
        → All Holds (insert_confident ops s ss)
    unfolding insert_confident
    insert_confident-Holds s [] h k = (h, tt)
    insert_confident-Holds s (t ∷ ss) h k = elim (Bool-cases (ops.less s.confidence t.confidence)) [
      | inl less ↦ rw less (k.0, insert_confident-Holds s ss h k.1)
      | inr not_less ↦ rw not_less (h, k)
    ]

    sort_confident-Holds :
        (ss : List (SimilarIncident F)) → All Holds ss → All Holds (sort_confident ops ss)
    unfolding sort_confident
    sort_confident-Holds [] h = tt
    sort_confident-Holds (s ∷ ss) h = insert_confident-Holds s _ h.0 (sort_confident-Holds ss h.1)

-- What the search asks of an incident and of its confidence.
pub record IsFound {F : Type 0} (ops : Floats F) (top_error : Incident → Option String)
    (now cutoff : ℕ) (opts : SimilarityOptions F) (current found : Incident) (confidence : F)
    : Type 0 where
  pub candidate : is_candidate current cutoff opts.include_states found ≡ true
  pub matched_on : List String
  pub agrees : calculate_similarity ops top_error now current found ≡ some (confidence, matched_on)
  pub enough : ops.less confidence opts.min_confidence ≡ false

module _ {F : Type 0} (ops : Floats F) (top_error : Incident → Option String) (now cutoff : ℕ)
    (opts : SimilarityOptions F) (current : Incident) where
  abbrev Sound : Incident → F → Type 0
  Sound = IsFound ops top_error now cutoff opts current

  abbrev IsCandidate : Incident → Type 0
  IsCandidate i = is_candidate current cutoff opts.include_states i ≡ true

  filter-IsCandidate :
      (is : List Incident)
      → All IsCandidate (filter (is_candidate current cutoff opts.include_states) is)
  unfolding filter
  filter-IsCandidate [] = tt
  filter-IsCandidate (i ∷ is) =
      elim (Bool-cases (is_candidate current cutoff opts.include_states i)) [
        | inl t ↦ rw t (t, filter-IsCandidate is)
        | inr t ↦ rw t (filter-IsCandidate is)
      ]

  scored-Sound :
      (i : Incident) (confidence : F) (matched : List String) (rest : List (SimilarIncident F))
      → IsCandidate i
      → calculate_similarity ops top_error now current i ≡ some (confidence, matched)
      → All (Holds Sound) rest
      → All
          (Holds Sound)
          (scored ops top_error opts.min_confidence now i (confidence, matched) rest)
  scored-Sound i confidence matched rest c e h =
      elim (Bool-cases (ops.less confidence opts.min_confidence)) [
        | inl low ↦ rw low h
        | inr enough ↦
            rw enough
              (record { candidate = c; matched_on = matched; agrees = e; enough = enough }, h)
      ]

  -- The scores are all computed, and what is kept is sound.
  score_all-Sound :
      (is : List Incident)
      → All IsCandidate is
      → Returns (All (Holds Sound)) (score_all ops top_error opts.min_confidence now current is)
  unfolding score_all
  score_all-Sound [] h = tt
  score_all-Sound (i ∷ is) h =
      let ((confidence, matched), e) =
        IsSome-result (calculate_similarity ops top_error now current i)
          (calculate_similarity-IsSome ops top_error now current i) in
      rw e (
        Returns-bind (All (Holds Sound)) (All (Holds Sound)) _ _ (score_all-Sound is h.1)
          λ rest k. scored-Sound i confidence matched rest h.0 e k)

-- A limit that is not negative gives at most so many items, all with the property; a negative one gives none.
abbrev pub IsLimited : {A : Type 0} → (A → Type 0) → ℤ → Option (List A) → Type 0
IsLimited P (pos n) answer =
    (results : List _) × (answer ≡ some results) × All P results × (length results ≤ n)
IsLimited P (negsuc n) answer = answer ≡ none

limit_results-IsLimited :
    {A : Type 0} (P : A → Type 0) (limit : ℤ) (xs : List A)
    → All P xs
    → IsLimited P limit (limit_results limit xs)
unfolding limit_results
limit_results-IsLimited P (pos n) xs h = (take n xs, refl, All-take P n xs h, length-take n xs)
limit_results-IsLimited P (negsuc n) xs h = refl

-- FindSimilarIncidents with a limit that is not negative returns, for any stored incidents and any order of its
-- groups. It gives at most opts.MaxResults incidents, and each of them is not the current one, is not older
-- than the time window, is in one of the wanted states where any are given, and has the confidence of
-- CalculateSimilarity, which is not below the minimum. With a negative limit it panics at the slice.
pub find_similar_sound :
    {F : Type 0} (ops : Floats F) (top_error : Incident → Option String)
    (order : Groups F → Groups F) (now : ℕ) (cutoff : ℕ → ℕ) (opts : SimilarityOptions F)
    (current : Incident) (incidents : List Incident)
    → ((P : String × List (SimilarIncident F) → Type 0) (groups : Groups F)
        → All P groups
        → All P (order groups))
    → IsLimited
        (Holds (IsFound ops top_error now (cutoff opts.days_back) opts current))
        opts.max_results
        (find_similar_incidents ops top_error order now cutoff opts current incidents)
unfolding find_similar_incidents
find_similar_sound ops top_error order now cutoff opts current incidents visits =
    let test = is_candidate current (cutoff opts.days_back) opts.include_states in
    let (scores, e, h) =
      Returns-result (All (Holds (IsFound ops top_error now (cutoff opts.days_back) opts current)))
        (score_all ops top_error opts.min_confidence now current (filter test incidents))
        (score_all-Sound ops top_error now (cutoff opts.days_back) opts current
          (filter test incidents)
          (filter-IsCandidate ops top_error now (cutoff opts.days_back) opts current incidents)) in
    rw e (
      limit_results-IsLimited _ opts.max_results _ (
        group_by_fix-Holds _ order (sort_confident ops scores) (visits _)
          (sort_confident-Holds _ ops scores h)))
