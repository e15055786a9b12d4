-- ===== src/Config.antt =====
-- The configuration: internal/config. `Types` has the records, `Defaults` what is filled in, `Validator`
-- the checks, `Store` the files, `Service` the operations, `Migrate` the change from the old file.
pub mod Types
pub mod Defaults
pub mod Validator
pub mod Store
pub mod Service
pub mod Entries
pub mod Mirror
pub mod Calls
pub mod Loading
pub mod Reopen
pub mod Migrate
pub mod Migration
pub mod Restart
pub mod Broken
pub mod Refines
pub mod Tests
