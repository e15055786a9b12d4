-- ===== src/Time.antt =====
-- internal/time: the check of the bridge clock, and the time of an observation.
pub mod Health
pub mod Authority
pub mod Trust
pub mod Tests
