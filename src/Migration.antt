-- ===== src/Migration.antt =====
-- plugins/smap/src/user/strategy/migration.c: a migration message on its way through the threads that
-- send it, and what its results do to the accounts of the processes.
pub mod Message
pub mod Threads
pub mod Accounts
pub mod Compensation
pub mod Send
mod Tests
