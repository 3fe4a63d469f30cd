-- ===== src/Tests/Similar.antt =====
-- The theorems on similar incidents, at concrete inputs.
use health_monitor_sre_engin.Common.{
  ℕ, ◌+◌, ◌-◌, ◌*◌, ◌/◌, ◌≤◌, ltb, String, none, some, List, [], ◌∷◌, ◌≡◌, refl, length, All, pos,
}
use health_monitor_sre_engin.Incident.{started, resolved, Analysis, Incident}
use health_monitor_sre_engin.Similar.Loops.{loop, cell_at, set_cell, byte_at}
use health_monitor_sre_engin.Similar.Distance.{
  levenshtein_distance, fill_matrix, fill_row, fill_cell, min3,
}
use health_monitor_sre_engin.Similar.Edits.{Edits, nothing, delete, keep}
use health_monitor_sre_engin.Similar.Table.{levenshtein_distance_least}
use health_monitor_sre_engin.Similar.Scores.{Floats, analysis_similarity}
use health_monitor_sre_engin.Similar.Symmetry.{analysis_similarity_comm}
use health_monitor_sre_engin.Similar.Search.{
  SimilarIncident, SimilarityOptions, find_similar_incidents,
}
use health_monitor_sre_engin.Similar.Results.{Holds, IsFound, find_similar_sound}
use health_monitor_sre_engin.Tests.Samples.{sample_incident}

-- "db1" and "db"
abbrev longer : List ℕ
longer = 100 ∷ 98 ∷ 49 ∷ []

abbrev shorter : List ℕ
shorter = 100 ∷ 98 ∷ []

levenshtein_distance_least_example :
    (d : ℕ) × (levenshtein_distance longer shorter ≡ some d) × Edits longer shorter 3 2 d × (d ≤ 1)
levenshtein_distance_least_example =
    levenshtein_distance_least longer shorter 1 (delete (keep refl (keep refl nothing)))

-- thousandths
abbrev thousandths : Floats ℕ
thousandths = record {
  literal = λ n decimals. n * 10;
  of_int = λ n. n * 1000;
  plus = λ a b. a + b;
  minus = λ a b. a - b;
  times = λ a b. a * b / 1000;
  over = λ a b. a * 1000 / b;
  less = λ a b. ltb a b;
  hours_since = λ now t. now - t;
}

abbrev caused_by : String → Analysis
caused_by component = record {
  component = component;
  dependency = "api->db";
  pattern = "connection pool exhausted";
  category = "database";
  root_cause = "";
  fix_summary = "";
  failure_type = "";
  error_signature = "";
  prevention = "";
}

analysis_similarity_comm_example :
    analysis_similarity thousandths (caused_by "postgres") (caused_by "postgres_db")
    ≡ analysis_similarity thousandths (caused_by "postgres_db") (caused_by "postgres")
analysis_similarity_comm_example =
    analysis_similarity_comm thousandths (caused_by "postgres") (caused_by "postgres_db")

abbrev two_options : SimilarityOptions ℕ
two_options = record {
  max_results = pos 2;
  min_confidence = 100;
  days_back = 90;
  include_states = resolved ∷ [];
}

abbrev earlier : List Incident
earlier =
    record (sample_incident resolved) { id = "INC-20240101-000000" }
    ∷ record (sample_incident resolved) { id = "INC-20240102-000000" }
    ∷ []

find_similar_sound_example :
    (results : List (SimilarIncident ℕ)) × (find_similar_incidents thousandths
        (λ i. none)
        (λ groups. groups)
        9
        (λ days. 0)
        two_options
        (sample_incident started)
        earlier
      ≡ some results)
    × All
        (Holds (IsFound thousandths (λ i. none) 9 0 two_options (sample_incident started)))
        results
    × (length results ≤ 2)
find_similar_sound_example =
    find_similar_sound thousandths (λ i. none) (λ groups. groups) 9 (λ days. 0) two_options
      (sample_incident started) earlier (λ P groups h. h)

abbrev cache : List ℕ
cache = b'c' ∷ b'a' ∷ b'c' ∷ b'h' ∷ b'e' ∷ []

three_edits : levenshtein_distance cache (b'c' ∷ b'a' ∷ b't' ∷ []) ≡ some 3
unfolding levenshtein_distance fill_matrix fill_row fill_cell min3 loop cell_at set_cell byte_at
three_edits = refl
