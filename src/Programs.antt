-- ===== src/Programs.antt =====
-- The Anchor programs of programs/programs: what the clients' transactions run on chain.
pub mod SwigDelegation
pub mod RiskPolicy
