-- ===== src/Bench.antt =====
-- src/benchmark.cpp: which bytes the measurements touch, and how the pointer chase links its nodes.
--
-- What a load fetches into a register, the times and the bandwidths are left out. An address is a number.
pub mod Chase
pub mod Permutation
pub mod Cycle
pub mod Stride
pub mod Counters
pub mod Once
pub mod Sequential
pub mod Summed
pub mod Stored
pub mod Touch
pub mod Blocks
pub mod Drawn
pub mod Zipfian
pub mod Scatter
pub mod Wrapped
pub mod StrideWrite
pub mod Loaded
pub mod Tests
