-- ===== src/Tests.antt =====
-- Runs of the model, and each property at a concrete input.
mod Fixed
mod Search
mod Ranks
mod Files
mod Sums
mod CommandLine
mod Gpu
mod Broadcasts
mod Program
mod Whole
mod Exchanges
