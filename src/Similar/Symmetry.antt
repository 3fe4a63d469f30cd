-- ===== src/Similar/Symmetry.antt =====
-- How alike two analyses are does not depend on which of the two comes first, whatever the arithmetic.
use health_monitor_sre_engin.Common.{
  ℕ, ◌+◌, String, Bool, ◌||◌, Option, none, some, ◌≡◌, refl, ◌==◌, str_eq, eq_iff, length, bytes,
  split, contains, is_empty, trim_space, to_lower, equal_fold, arith,
}
use health_monitor_sre_engin.Incident.{Analysis}
use health_monitor_sre_engin.Similar.Table.{levenshtein_distance_comm}
use health_monitor_sre_engin.Similar.Terms.{extract_terms, extract_terms-IsTerms, count_common_comm}
use health_monitor_sre_engin.Similar.Aliases.{are_aliases_comm, service_aliases}
use health_monitor_sre_engin.Similar.Scores.{
  Floats, two_parts, max_of, compare_fuzzy, compare_cleaned, compare_components, compare_parts,
  compare_dependencies, compare_error_signatures, jaccard, pattern_similarity, weigh_category,
  analysis_similarity, Score,
}

str_eq_comm : (s t : String) → str_eq s t ≡ str_eq t s
str_eq_comm s t = ground (arith, eq_iff s t, eq_iff t s)

or_comm : (a b : Bool) → (a || b) ≡ (b || a)
or_comm a b = ground arith

max_of_comm : (a b : ℕ) → max_of a b ≡ max_of b a
unfolding max_of
max_of_comm a b = ground arith

module _ {F : Type 0} (ops : Floats F) where
  compare_fuzzy_comm : (c1 c2 : String) → compare_fuzzy ops c1 c2 ≡ compare_fuzzy ops c2 c1
  unfolding compare_fuzzy
  compare_fuzzy_comm c1 c2 =
      rw
        (
          levenshtein_distance_comm (bytes c1) (bytes c2),
          max_of_comm (length (bytes c1)) (length (bytes c2)),
        )
        refl

  compare_cleaned_comm : (c1 c2 : String) → compare_cleaned ops c1 c2 ≡ compare_cleaned ops c2 c1
  unfolding compare_cleaned
  compare_cleaned_comm c1 c2 =
      rw
        (
          str_eq_comm c1 c2,
          are_aliases_comm service_aliases c1 c2,
          or_comm (contains c1 c2) (contains c2 c1),
          compare_fuzzy_comm c1 c2,
        )
        refl

  compare_components_comm :
      (c1 c2 : String) → compare_components ops c1 c2 ≡ compare_components ops c2 c1
  unfolding compare_components
  compare_components_comm c1 c2 =
      rw
        (
          or_comm (is_empty c1) (is_empty c2),
          compare_cleaned_comm (to_lower (trim_space c1)) (to_lower (trim_space c2)),
        )
        refl

  compare_parts_comm :
      (p1 p2 : Option (String × String)) → compare_parts ops p1 p2 ≡ compare_parts ops p2 p1
  unfolding compare_parts
  compare_parts_comm none none = refl
  compare_parts_comm none (some p2) = refl
  compare_parts_comm (some p1) none = refl
  compare_parts_comm (some (s1, t1)) (some (s2, t2)) =
      rw (compare_components_comm t1 t2, compare_components_comm s1 s2) refl

  compare_dependencies_comm :
      (d1 d2 : String) → compare_dependencies ops d1 d2 ≡ compare_dependencies ops d2 d1
  unfolding compare_dependencies
  compare_dependencies_comm d1 d2 =
      rw
        (
          or_comm (is_empty d1) (is_empty d2),
          str_eq_comm (to_lower (trim_space d1)) (to_lower (trim_space d2)),
          compare_parts_comm (two_parts (split (to_lower (trim_space d1)) "->"))
              (two_parts (split (to_lower (trim_space d2)) "->")),
        )
        refl

  compare_error_signatures_comm :
      (s t : String) → compare_error_signatures ops s t ≡ compare_error_signatures ops t s
  unfolding compare_error_signatures
  compare_error_signatures_comm s t =
      rw
        (
          or_comm (is_empty s) (is_empty t),
          str_eq_comm (to_lower (trim_space s)) (to_lower (trim_space t)),
          or_comm (contains (to_lower (trim_space s)) (to_lower (trim_space t)))
              (contains (to_lower (trim_space t)) (to_lower (trim_space s))),
        )
        refl

  pattern_similarity_comm : (p q : String) → pattern_similarity ops p q ≡ pattern_similarity ops q p
  unfolding pattern_similarity jaccard
  pattern_similarity_comm p q =
      rw
        (
          or_comm (is_empty p) (is_empty q),
          count_common_comm (extract_terms p) (extract_terms q) (extract_terms-IsTerms p)
              (extract_terms-IsTerms q),
          add_comm (length (extract_terms p)) (length (extract_terms q)),
          or_comm (length (extract_terms p) == 0) (length (extract_terms q) == 0),
        )
        refl
    where
      add_comm : (a b : ℕ) → a + b ≡ b + a
      add_comm a b = omega arith

  weigh_category_comm :
      (c d : String) (s : Score F) → weigh_category ops c d s ≡ weigh_category ops d c s
  unfolding weigh_category equal_fold
  weigh_category_comm c d s = ground (arith, str_eq_comm (to_lower c) (to_lower d))

  -- CalculateSimilarity gives the same score, before the decay by age, and the same matched fields
  -- whichever of two analysed incidents is the current one, in any arithmetic.
  pub analysis_similarity_comm :
      (a b : Analysis) → analysis_similarity ops a b ≡ analysis_similarity ops b a
  unfolding analysis_similarity
  analysis_similarity_comm a b =
      simp
        (
          compare_components_comm a.component b.component,
          weigh_category_comm a.category b.category,
          pattern_similarity_comm a.pattern b.pattern,
          compare_dependencies_comm a.dependency b.dependency,
          compare_error_signatures_comm a.error_signature b.error_signature,
        )
        refl
