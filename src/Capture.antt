-- ===== src/Capture.antt =====
-- The capture plane above its ledger: vios/capture/pacing.py and the loop of vios/capture/engine.py.
pub mod Pacer
pub mod Pace
pub mod Loop
pub mod Refines
pub mod Spaced
pub mod Halt
pub mod Sleeps
pub mod Others
pub mod Strands
mod Tests
