-- ===== src/Flarm.antt =====
-- src/flarm: the aircraft that the FLARM receiver sees.
pub mod Record
pub mod FlarmList
pub mod Algorithms
