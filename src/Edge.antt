-- ===== src/Edge.antt =====
-- apps/splitforge-edge/src/main.rs: the service on the device.
pub mod Watch
pub mod Store
