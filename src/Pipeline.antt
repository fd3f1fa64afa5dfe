-- ===== src/Pipeline.antt =====
-- The pipeline of the IoT Hub client.
pub mod Ops
pub mod Convert
pub mod World
pub mod Wiring
pub mod Login
pub mod Delivery
pub mod Exec
pub mod Weight
pub mod Run
pub mod Load
pub mod Once
pub mod Halts
pub mod Marks
pub mod Serial
pub mod Failures
pub mod Below
pub mod Twin
pub mod Unsent
pub mod Patch
pub mod Answer
mod Tests
mod LoginTests
