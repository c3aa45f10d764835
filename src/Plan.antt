-- ===== src/Plan.antt =====
-- plugins/smap/src/user/strategy/migration.c: the migration plan of each pair of a local and a remote
-- node, within the budgets of the processes and of the destination nodes.
pub mod Types
pub mod Snapshot
pub mod Build
pub mod Swap
pub mod Apply
mod Tests
