-- ===== src/Consensus.antt =====
-- The package consensus: the proof-of-work and the proof-of-stake engine, and the fork choice.
pub mod Pow
pub mod Pos
pub mod ForkChoice
