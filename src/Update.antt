-- ===== src/Update.antt =====
-- The update checker of internal/update: `Versions` has the comparison of versions, `Releases` is
-- about it, `Tests` runs it.
pub mod Versions
pub mod Releases
pub mod Tests
