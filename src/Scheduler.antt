-- ===== src/Scheduler.antt =====
-- internal/scheduler: when cameras are tried again, the capture of images and their upload.
pub mod Backoff
pub mod Delays
pub mod Capture
pub mod Jobs
pub mod Ticks
pub mod Clocks
pub mod Degraded
pub mod Tests
