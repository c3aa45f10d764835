-- ===== src/Pair.antt =====
-- The targets of the pairs of nodes, plugins/smap/src/user/manage/manage_pair.c. Nothing of its own,
-- only its children.
pub mod Distribute
pub mod Requests
pub mod Account
pub mod Allocate
mod Tests
