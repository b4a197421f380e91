-- ===== src/Model.antt =====
-- The plain data of src/model: modes and types of a flight, launch methods and planes.
pub mod Mode
pub mod FlightType
pub mod LaunchMethod
pub mod Plane
pub mod FlightError
pub mod Person
pub mod FlarmNetRecord
