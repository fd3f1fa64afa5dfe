-- ===== src/Mqtt.antt =====
-- common/mqtt_transport.py
pub mod Manager
pub mod Transport
mod Tests
