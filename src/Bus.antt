-- ===== src/Bus.antt =====
-- The physical bus: access results, address ranges, the region interface, routing, reservations.
pub mod Access
pub mod Range
pub mod Region
pub mod Routing
pub mod Layout
pub mod Locate
pub mod Reservation
pub mod Upkeep
pub mod Monitor
