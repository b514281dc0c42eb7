-- ===== src/Packet.antt =====
-- common/mqtt_packet: the MQTT packet codec.
pub mod Defs
pub mod Write
pub mod Serialize
pub mod Read
pub mod Deserialize
pub mod RemainingLength
pub mod Wire
pub mod RoundTrip
pub mod Acks
pub mod Suback
pub mod Connect
pub mod Subscribe
mod Examples
