-- ===== src/Pkcs11.antt =====
-- The PKCS #11 API module (api-module/pkcs11/src).
pub mod Cryptoki
pub mod Label
pub mod Uri
pub mod State
pub mod Token
pub mod Sgx
pub mod Dispatch
pub mod OnDemand
pub mod Start
mod Tests
