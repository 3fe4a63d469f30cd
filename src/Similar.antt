-- ===== src/Similar.antt =====
-- internal/incident/similarity.go and Service.FindSimilarIncidents (internal/incident/service.go): how
-- alike two incidents are, and the search for earlier incidents like one at hand.
pub mod Loops
pub mod Distance
pub mod Edits
pub mod Table
pub mod Terms
pub mod Aliases
pub mod Scores
pub mod Symmetry
pub mod Fallback
pub mod Search
pub mod Total
pub mod Results
