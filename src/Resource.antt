-- ===== src/Resource.antt =====
-- The resource limiter: internal/resource/limiter.go, with the capture workers of
-- internal/scheduler/capture.go that share its slots. `Limiter` has the slots and their numbers, `Workers`
-- the steps of the workers, the other children the proofs.
pub mod Limiter
pub mod Workers
pub mod Bounded
pub mod Progress
pub mod Tests
