-- ===== src/Alert/Processor.antt =====
-- internal/alert/handler.go: processing a batch of alerts. What a batch gathers (decisions and
-- warnings) and what it changes (counters, the cache, the alert history and, through the incident
-- service, the world) is one state. The messages of decisions and warnings are data. The workers that
-- share a large batch run whole alerts one after another here, in some order.
pub mod State
pub mod Messages
pub mod Apply
pub mod Process
pub mod DryRun
pub mod Moves
pub mod Effects
pub mod Blank
