-- ===== src/Agents.antt =====
-- agents/src: the Observer (read zone), the Analyst (compute zone), the Guardian (execute zone), and
-- the loop of run.ts that joins them over an `OnchainClient`.
pub mod Observer
pub mod Loop
pub mod Guard
pub mod Drift
pub mod Lifecycle
pub mod Turns
pub mod Main
pub mod Calm
pub mod Ticks
pub mod Protection
pub mod Exit
pub mod Unwritten
pub mod FirstBreach
