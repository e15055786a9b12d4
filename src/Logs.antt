-- ===== src/Logs.antt =====
-- The log lines that are kept for the web console: internal/logger/buffer.go.
pub mod Buffer
pub mod Back
pub mod Latest
pub mod Tests
