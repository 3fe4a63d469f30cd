-- ===== src/Similar/Total.antt =====
-- CalculateSimilarity returns for any two incidents.
use health_monitor_sre_engin.Common.{
  ℕ, String, Option, none, some, ◌≡◌, refl, bytes, split, trim_space, to_lower, arith,
}
use health_monitor_sre_engin.Incident.{Incident, Analysis}
use health_monitor_sre_engin.Similar.Loops.{◌>>=◌}
use health_monitor_sre_engin.Similar.Table.{levenshtein_distance-least_edits}
use health_monitor_sre_engin.Similar.Scores.{
  Floats, two_parts, compare_fuzzy, compare_cleaned, compare_components, compare_parts,
  compare_dependencies, analysis_similarity,
}
use health_monitor_sre_engin.Similar.Fallback.{calculate_similarity, of_analyses}

abbrev pub IsSome : {A : Type 0} → Option A → Type 0
IsSome none = ⊥
IsSome (some a) = Unit

pub IsSome-bind :
    {A B : Type 0} (r : Option A) (f : A → Option B)
    → IsSome r
    → ((a : A) → IsSome (f a))
    → IsSome (r >>= f)
IsSome-bind none f h k = absurd h
IsSome-bind (some a) f h k = k a

pub IsSome-result : {A : Type 0} (r : Option A) → IsSome r → (a : A) × (r ≡ some a)
IsSome-result none h = absurd h
IsSome-result (some a) h = (a, refl)

module _ {F : Type 0} (ops : Floats F) where
  compare_fuzzy-IsSome : (c1 c2 : String) → IsSome (compare_fuzzy ops c1 c2)
  unfolding compare_fuzzy
  compare_fuzzy-IsSome c1 c2 = rw (levenshtein_distance-least_edits (bytes c1) (bytes c2)) tt

  compare_cleaned-IsSome : (c1 c2 : String) → IsSome (compare_cleaned ops c1 c2)
  unfolding compare_cleaned
  compare_cleaned-IsSome c1 c2 = ground (arith, compare_fuzzy-IsSome c1 c2)

  compare_components-IsSome : (c1 c2 : String) → IsSome (compare_components ops c1 c2)
  unfolding compare_components
  compare_components-IsSome c1 c2 =
      ground (arith, compare_cleaned-IsSome (to_lower (trim_space c1)) (to_lower (trim_space c2)))

  compare_parts-IsSome : (p1 p2 : Option (String × String)) → IsSome (compare_parts ops p1 p2)
  unfolding compare_parts
  compare_parts-IsSome none none = tt
  compare_parts-IsSome none (some p2) = tt
  compare_parts-IsSome (some p1) none = tt
  compare_parts-IsSome (some (s1, t1)) (some (s2, t2)) =
      IsSome-bind _ _ (compare_components-IsSome t1 t2)
        λ target. IsSome-bind _ _ (compare_components-IsSome s1 s2) λ source. tt

  compare_dependencies-IsSome : (d1 d2 : String) → IsSome (compare_dependencies ops d1 d2)
  unfolding compare_dependencies
  compare_dependencies-IsSome d1 d2 = ground (
    arith,
    compare_parts-IsSome (two_parts (split (to_lower (trim_space d1)) "->"))
        (two_parts (split (to_lower (trim_space d2)) "->")),
  )

  analysis_similarity-IsSome : (a b : Analysis) → IsSome (analysis_similarity ops a b)
  unfolding analysis_similarity
  analysis_similarity-IsSome a b =
      IsSome-bind _ _ (compare_components-IsSome a.component b.component) λ component.
        IsSome-bind _ _ (compare_dependencies-IsSome a.dependency b.dependency) λ dependency. tt

  of_analyses-IsSome :
      (top_error : Incident → Option String) (now : ℕ) (current historical : Incident)
      (a b : Option Analysis)
      → IsSome (of_analyses ops top_error now current historical a b)
  of_analyses-IsSome top_error now current historical none none = tt
  of_analyses-IsSome top_error now current historical none (some b) = tt
  of_analyses-IsSome top_error now current historical (some a) none = tt
  of_analyses-IsSome top_error now current historical (some a) (some b) =
      IsSome-bind _ _ (analysis_similarity-IsSome a b) λ s. tt

  pub calculate_similarity-IsSome :
      (top_error : Incident → Option String) (now : ℕ) (current historical : Incident)
      → IsSome (calculate_similarity ops top_error now current historical)
  unfolding calculate_similarity
  calculate_similarity-IsSome top_error now current historical =
      of_analyses-IsSome top_error now current historical current.analysis historical.analysis
