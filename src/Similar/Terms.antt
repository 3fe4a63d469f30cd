-- ===== src/Similar/Terms.antt =====
-- extractTerms and patternSimilarity's counts, and areAliases, of internal/incident/similarity.go.
use Prim.Native.String.{[], ◌∷◌}
use health_monitor_sre_engin.Common.{
  ℕ, ◌+◌, String, Bool, true, false, not, ◌&&◌, none, some, List, [], ◌∷◌, ◌≡◌, refl, sym, ltb,
  if◌then◌else◌, str_eq, eq_iff, Dict, lookup, insert, lookup-insert, any, length, bytes, fields,
  trim_set, to_lower, arith,
}

abbrev stop_words : List String
stop_words =
    "the" ∷ "a" ∷ "an" ∷ "and" ∷ "or" ∷ "but" ∷ "in" ∷ "on" ∷ "at" ∷ "to" ∷ "for" ∷ "of" ∷ "with"
    ∷ "by" ∷ []

-- the cutset of the source: a stop, a comma, and so on, with both quotes
abbrev marks : String
marks = ".,;:!?\"'"

unfoldable pub add_terms : List String → Dict Bool → Dict Bool
add_terms [] terms = terms
add_terms (word ∷ words) terms =
    let trimmed = trim_set word marks in
    add_terms words (
      if ltb 2 (length (bytes trimmed)) && not (any (str_eq trimmed) stop_words)
      then insert trimmed true terms
      else terms)

-- extractTerms
unfoldable pub extract_terms : String → Dict Bool
unfolding add_terms to_lower fields trim_set
extract_terms pattern = add_terms (fields (to_lower pattern)) []

-- terms[word]
unfoldable pub has_term : String → Dict Bool → Bool
unfolding lookup
has_term word terms = elim (lookup word terms) [ none ↦ false | some b ↦ b ]

-- The intersection counted by patternSimilarity.
unfoldable pub count_common : Dict Bool → Dict Bool → ℕ
count_common [] others = 0
count_common ((word, _) ∷ terms) others =
    (if has_term word others then 1 else 0) + count_common terms others

-- Each term stands once, with the value true.
abbrev pub IsTerms : Dict Bool → Type 0
IsTerms [] = Unit
IsTerms ((word, here) ∷ terms) = (here ≡ true) × (lookup word terms ≡ none) × IsTerms terms

insert-IsTerms :
    (word : String) (terms : Dict Bool) → IsTerms terms → IsTerms (insert word true terms)
unfolding insert lookup
insert-IsTerms word [] h = (refl, refl, tt)
insert-IsTerms word ((other, here) ∷ terms) h = ground (
  arith,
  insert-IsTerms word terms,
  lookup-insert word other true terms,
  eq_iff other word,
  eq_iff word other,
)

add_terms-IsTerms :
    (words : List String) (terms : Dict Bool) → IsTerms terms → IsTerms (add_terms words terms)
unfolding add_terms
add_terms-IsTerms [] terms h = h
add_terms-IsTerms (word ∷ words) terms h =
    add_terms-IsTerms words _
      (kept (ltb 2 (length (bytes trimmed)) && not (any (str_eq trimmed) stop_words)))
  where
    trimmed : String
    trimmed = trim_set word marks

    kept : (new : Bool) → IsTerms (if new then insert trimmed true terms else terms)
    kept true = insert-IsTerms trimmed terms h
    kept false = h

pub extract_terms-IsTerms : (pattern : String) → IsTerms (extract_terms pattern)
unfolding extract_terms
extract_terms-IsTerms pattern = add_terms-IsTerms (fields (to_lower pattern)) [] tt

count_common-none : (terms : Dict Bool) → count_common terms [] ≡ 0
unfolding count_common has_term lookup
count_common-none [] = refl
count_common-none ((word, here) ∷ terms) = omega (arith, count_common-none terms)

-- A new term on the right counts where the left has it.
count_common-cons :
    (terms others : Dict Bool) (word : String)
    → IsTerms terms
    → lookup word others ≡ none
    → count_common terms ((word, true) ∷ others)
      ≡ (if has_term word terms then 1 else 0) + count_common terms others
unfolding count_common has_term lookup
count_common-cons [] others word h fresh = refl
count_common-cons ((first, here) ∷ terms) others word (is_true, alone, h) fresh =
    ground
      (arith, count_common-cons terms others word h fresh, eq_iff word first, eq_iff first word)

-- The intersection has the same size from both sides.
pub count_common_comm :
    (terms others : Dict Bool)
    → IsTerms terms
    → IsTerms others
    → count_common terms others ≡ count_common others terms
unfolding count_common
count_common_comm [] others h k = sym (count_common-none others)
count_common_comm ((word, here) ∷ terms) others (is_true, alone, h) k =
    rw (is_true, count_common-cons others terms word k alone)
      (omega (arith, count_common_comm terms others h k))
