-- ===== src/Core.antt =====
-- The life of a test in core/tankcore.py and common/util.py: the loading of the plugins, their
-- polling until one of them ends the test, what is done when it has ended, the locks and artifact
-- files, and the information that the plugins share.
pub mod Polling
pub mod Finishing
pub mod Locks
pub mod TankInfo
pub mod Artifacts
pub mod Loading
pub mod ReturnCodes
mod Tests
mod LockTests
