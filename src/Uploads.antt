-- ===== src/Uploads.antt =====
-- internal/scheduler/upload.go: the worker that uploads the images of all queues.
pub mod Types
pub mod Failures
pub mod Turns
pub mod Scheduling
pub mod Steps
pub mod View
pub mod Counting
pub mod Tracking
pub mod Sending
pub mod Flight
pub mod Choice
pub mod Backoffs
pub mod Tests
