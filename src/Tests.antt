-- ===== src/Tests.antt =====
-- Runs of the theorems at concrete inputs.
pub mod Capture
pub mod Signalling
pub mod Storage
pub mod Front
pub mod Figures
pub mod Routes
