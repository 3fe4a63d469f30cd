-- ===== src/Lib.antt =====
-- Verification of the incident and alert core of the health monitor.
--
-- Alerts come in as batches (internal/alert), are matched against rules and either attached to an
-- incident or open one. The incident service (internal/incident/service.go) moves incidents through their
-- life cycle and writes them as JSON files through the store (internal/incident/store.go). Slack
-- notifications go through a circuit breaker with retries (internal/notify/slack/resilience.go). Other
-- state is written by internal/storage/atomic.go, also the snapshots and life cycles of the recorder
-- (internal/ml/lifecycle_recorder.go). Earlier incidents like one at hand are found by
-- internal/incident/similarity.go. The binary updates itself (pkg/update/updater.go).
--
-- - Common: texts, lists, maps and Boolean tests that all parts use. A Go map is an association list whose
--   order stands for the order of `range`.
-- - Flow: internal/flow/service.go, normalizeServices of internal/flow/loader.go, and the flow ids of a
--   service. Loader is loadFiles and expandLocations of loader.go. The service takes the result of loading
--   as a parameter.
-- - Incident: the data of internal/incident/models.go and internal/audit/types.go.
--   Ranks (severities), Transitions (internal/incident/state.go),
--   Store (Save, SaveNew, Load on an explicit file system; Paths and RoundTrip hold its lemmas),
--   Listing (ListForMonth and the searches of the service; Searches holds its lemmas),
--   World (what the methods of the service read and change),
--   Service (the methods that open incidents, with Analysis, Lifecycle, Notes and Actions for the others).
--   Service.Writes says what a method may write; its rules are applied in Methods, Openings and Items to each
--   method; Evolution and Requests follow incidents through sequences of calls; Outcomes has results.
-- - Alert: internal/alert. Mapping (mapping.go, matchRule), Fingerprints (labels, keys and the cache of
--   handler.go), Rate (ratelimit.go), Processor (processAlert, apply and Process of handler.go, in State,
--   Messages, Apply and Process; DryRun, Moves, Effects and Blank hold lemmas).
-- - Similar: internal/incident/similarity.go and FindSimilarIncidents of internal/incident/service.go.
--   Loops and Distance (levenshteinDistance on a table), Edits and Table (its specification and proof),
--   Terms, Aliases, Scores, Symmetry (the comparisons of two incidents), Fallback (CalculateSimilarity),
--   Search and Results (FindSimilarIncidents, groupByFix), Total (no run goes out of range).
-- - Recorder: internal/ml/lifecycle_recorder.go. Window is the rolling buffer, Disk the files.
-- - Update: pkg/update/updater.go. Versions (compareVersions), Replace (replaceBinary), Install
--   (PerformUpdate).
-- - Access: internal/config/security.go: roles, API keys and the validation of the configuration.
-- - Auth: internal/alert/auth.go, the credentials of the webhook server.
-- - Runbook: internal/runbook/store.go. Files and Cleanup hold its lemmas.
-- - Slo: internal/slo/service.go, CheckSLOs. Queries (formatQuery, parsePrometheusWindow); Kept and Breaches hold
--   its theorems.
-- - Slack: internal/notify/slack/resilience.go.
-- - Storage: internal/storage/atomic.go.
-- - Security: internal/security/middleware.go and implementation.go, the whitelist of
--   internal/config/security.go and the chain of internal/alert/secure_handler.go, which webhooks pass before
--   they are processed. Payload is the validation, Body the body that is put back, Chain the lemmas.
-- - Tests: concrete inputs.
--
-- Numbers and bounds. Times are nanoseconds as natural numbers. The counters of the alert metrics wrap at
-- 2 ^ 64. Texts are ASCII for trimming and for upper and lower case. The loop over ids in Start and
-- Suggest has three rounds, as in the source; the loop of Notify has as many as there are retries, and one
-- more. The loops of levenshteinDistance and compareVersions run as often as the source says. An int of a
-- configuration and of a version is an integer of any size; a version's number that does not fit in 64
-- bits is 0, as fmt.Sscanf leaves it. No definition has fuel that can run out but the digits of a number,
-- which has enough for every number.
--
-- Environment. The clock, the format of a time in an id, the links of an incident, the result of loading
-- flows and the end of each write are parameters. sha256 is the parameter `digest`. What the security
-- chain takes from Go's net, netip and encoding/json and from golang.org/x/time/rate is the record
-- Security.Library. The arithmetic of float64 is a parameter: in the scores of similar incidents the
-- record Similar.Scores.Floats, of which nothing is assumed, in the rate limiter Alert.Rate.Floats with
-- the properties Alert.Rate.Bounds.IsFloat; the order in which `range` visits the groups of similar
-- incidents is a parameter. HTTP, hashes and running a downloaded binary are the record
-- Update.Install.Outside. JSON in the recorder and in the store of runbooks is a pair of functions. The
-- float64 of objectives is the record Slo.Floats; the metrics provider and the parsing of durations are
-- parameters, and one check of an objective asks a provider that does not change.
--
-- Not modelled: the correlators of logs and traces, discovery, the recorder and Kubernetes enrichment,
-- which the service has as optional parts (nil here); warnings that a method returns beside an incident;
-- two processes or workers that interleave within one call; YAML; JSON but for parsed values (a stored
-- incident is read back as it was written: texts are sequences of Unicode characters, so that the invalid
-- UTF-8 that MarshalIndent replaces does not occur); HTTP but for the chain and the responses of the
-- update server; the monitoring loop of the SLOs and the formats of its results; the directories of the
-- store and their migration. Analyses, the terminal interface, configuration and the other notifiers call
-- external systems or format text.
pub mod Common
pub mod Flow
pub mod Incident
pub mod Alert
pub mod Similar
pub mod Recorder
pub mod Update
pub mod Access
pub mod Runbook
pub mod Auth
pub mod Slack
pub mod Slo
pub mod Storage
pub mod Security
pub mod Tests
