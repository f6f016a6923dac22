-- ===== src/Kms.antt =====
-- npm/kms/src/intf.cpp: the network protocol module of the key server.
pub mod Server
pub mod Wire
pub mod Start
pub mod Protocol
pub mod Fetches
pub mod Headers
pub mod Init
pub mod Configured
pub mod Tame
pub mod Blanks
mod Tests
