-- ===== src/Service.antt =====
-- The daemon's transport (cyan/service/transport).
pub mod Broadcaster
