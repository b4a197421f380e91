-- ===== src/Statistics.antt =====
-- src/statistics: the plane log.
pub mod PlaneLog
pub mod LaunchMethods
