-- ===== src/Examples.antt =====
-- Runs of the model on concrete flights, with a clock that counts seconds.
mod Setting
mod Flights
mod Caches
mod Contents
mod Lookups
mod Views
mod Lists
mod Objects
mod Migrations
mod Flarm
mod Server
mod Database
mod Statistics
mod Nmea
