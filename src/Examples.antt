-- ===== src/Examples.antt =====
-- The teaching programs beside the matcher.
pub mod Shares
pub mod DistributedSum
pub mod PingPong
