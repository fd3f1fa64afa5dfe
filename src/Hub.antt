-- ===== src/Hub.antt =====
-- iothub/: the parts that only IoT Hub has.
pub mod Message
pub mod Topic
pub mod Inbox
pub mod Received
pub mod Client
pub mod Incoming
