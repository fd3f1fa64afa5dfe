-- ===== src/Provisioning.antt =====
-- provisioning/: the device provisioning client.
pub mod Polling
pub mod Pipeline
pub mod Client
pub mod Security
pub mod Stages
