-- ===== src/Tests.antt =====
-- Concrete inputs for the theorems, and runs of the definitions on them.
pub mod Samples
mod Incidents
mod Stores
mod Alerts
mod Services
mod Requests
mod Similar
mod Updates
mod Configs
mod Runbooks
mod Slos
