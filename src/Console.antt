-- ===== src/Console.antt =====
-- The web console of internal/web/server.go over the configuration service: `Types` has the requests and
-- replies, `Updates` and `Handlers` the handlers, `Serve` the routes, `Status` the status page of
-- cmd/bridge/main.go and the health check, the other children the proofs.
pub mod Types
pub mod Status
pub mod Updates
pub mod Handlers
pub mod Serve
pub mod Access
pub mod Kept
pub mod Secrets
pub mod Health
pub mod Tests
