-- ===== src/KeyAgent.antt =====
-- The key agent (key-agent/src, key-agent/stm, key-agent/npm).
pub mod State
pub mod Database
pub mod Cache
pub mod Key
pub mod SwkType
pub mod Transfer
pub mod Stm
pub mod Session
pub mod Load
pub mod WellFormed
pub mod Steps
pub mod Startup
pub mod Fixture
mod Tests
