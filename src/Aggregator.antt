-- ===== src/Aggregator.antt =====
-- The package `aggregator`: how seconds of results reach the listeners.
pub mod TankAggregator
pub mod Poller
pub mod Chopper
mod Tests
mod ChopperTests
