-- ===== src/Bridge.antt =====
-- The daemon as a whole: cmd/bridge/main.go over internal/scheduler/orchestrator.go. `Clients` makes the
-- camera and upload clients, `Orchestrator` has the workers, `Events` the answers to changes of the
-- configuration, `Start` the start of the daemon, the other children the proofs.
pub mod Clients
pub mod Orchestrator
pub mod Events
pub mod Start
pub mod Kept
pub mod Asleep
pub mod Uploading
pub mod Keys
pub mod Paired
pub mod Zones
pub mod Tests
