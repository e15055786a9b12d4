-- ===== src/Queue.antt =====
-- The image queue of one camera: internal/queue/queue.go and internal/queue/types.go. `Types` has
-- the state; `Disk`, `Listing` and `Health` the internal methods; `Thinning`, `Enqueue`, `Dequeue`
-- and `Upload` the operations; the other children the proofs.
pub mod Types
pub mod Disk
pub mod Listing
pub mod Health
pub mod Thinning
pub mod Enqueue
pub mod Upload
pub mod Dequeue
pub mod Consistent
pub mod Stable
pub mod Names
pub mod Writes
pub mod Store
pub mod Calls
pub mod Faults
pub mod Levels
pub mod Kept
pub mod Ends
pub mod Batches
pub mod Chronology
pub mod Manager
pub mod Fleet
pub mod Tests
pub mod FleetTests
pub mod OrderTests
