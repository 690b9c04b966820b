-- ===== src/Tests.antt =====
-- Concrete worlds, and each theorem with a hypothesis applied in one of them.
mod Fixture
mod Claims
mod Ceilings
mod Transfers
mod Nightly
mod Gossip
