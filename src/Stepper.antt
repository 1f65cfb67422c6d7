-- ===== src/Stepper.antt =====
-- The package `stepper`: it makes the ammo and its schedule.
pub mod Status
pub mod InstancePlan
pub mod Stpd
pub mod Missile
pub mod Mark
pub mod Writing
pub mod Config
pub mod LoadPlan
mod Tests
mod MissileTests
mod WritingTests
