-- ===== src/Counters.antt =====
-- The analyses that count: lib/OpcodeCounter.cpp and lib/StaticCallCounter.cpp, with what they print.
pub mod Tally
pub mod OpcodeCounter
pub mod StaticCallCounter
pub mod Report
