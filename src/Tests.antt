-- ===== src/Tests.antt =====
-- Runs of the model on concrete inputs, and the theorems at inputs that meet their hypotheses.
mod Fixture
mod Registry
mod Verifying
mod Registering
mod Demo
mod Encryption
mod Clients
mod Chain
mod Sessions
mod Zones
mod Protecting
mod Pages
mod Scripts
mod Comparing
mod Cards
