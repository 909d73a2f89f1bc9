-- ===== src/Vbuf/Tests.antt =====
-- Runs of the ring buffer at concrete inputs.
pub mod Queue
pub mod Devices
