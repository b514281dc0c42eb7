-- ===== src/Client.antt =====
-- services/common/mqtt_client: the MQTT client.
pub mod Topic
pub mod PacketId
pub mod RepeatBuf
pub mod State
pub mod Common
pub mod Handles
pub mod WaitList
pub mod Publish
pub mod Subscribe
pub mod Read
pub mod Cycle
pub mod Connect
pub mod Yield
pub mod Linked
pub mod Returns
pub mod Api
mod Examples
