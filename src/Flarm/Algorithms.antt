-- ===== src/Flarm/Algorithms.antt =====
-- src/flarm/algorithms: which plane and which flight a FLARM identifier belongs to, and keeping
-- the FLARM identifiers of the planes.
pub mod PlaneLookup
pub mod FlightLookup
pub mod FlarmIdCheck
pub mod PlaneIdentification
