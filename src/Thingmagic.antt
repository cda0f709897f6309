-- ===== src/Thingmagic.antt =====
-- crates/splitforge-thingmagic: the serial protocol of a ThingMagic reader module.
pub mod Crc
pub mod Frame
pub mod Reassembly
pub mod Command
pub mod Start
pub mod TagReport
