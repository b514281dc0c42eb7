-- ===== src/Services.antt =====
-- services/common: the clients of HTTP and of COS, and the OTA service.
pub mod Cos
pub mod Http
pub mod Ota
pub mod Service
