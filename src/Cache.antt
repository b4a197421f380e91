-- ===== src/Cache.antt =====
-- src/db/cache: the objects that the program keeps in memory.
pub mod Objects
pub mod EntityList
pub mod Flights
pub mod Index
pub mod Table
pub mod Contents
pub mod Events
pub mod Refresh
pub mod Clear
pub mod FlarmIds
pub mod People
pub mod FlarmNet
pub mod Planes
pub mod LaunchMethods
