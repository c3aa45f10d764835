-- ===== src/Plan/Swap.antt =====
-- The swap pages of pair plans in plugins/smap/src/user/strategy/migration.c: how many cold local
-- pages can be exchanged for hotter remote ones, and `BuildPairSwapPlans`.
pub mod Count
pub mod Build
