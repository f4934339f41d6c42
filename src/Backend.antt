-- ===== src/Backend.antt =====
-- The encryption backends under backends/.
pub mod Spec
pub mod F1
pub mod F2
pub mod F3
pub mod F4
pub mod F5
pub mod F6
pub mod Agree
mod Tests
mod LaneTests
