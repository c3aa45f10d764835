-- ===== src/Strategy.antt =====
-- The page selection of the user-space strategy: plugins/smap/src/user/strategy.
pub mod Actc
pub mod Threshold
pub mod Collect
pub mod Select
pub mod Swap
mod Tests
