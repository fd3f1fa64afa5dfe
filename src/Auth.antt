-- ===== src/Auth.antt =====
-- iothub/auth/: the authentication providers.
pub mod Token
pub mod Renewal
pub mod Signature
pub mod SharedKey
pub mod Edge
pub mod Environment
pub mod Creation
mod Tests
