-- ===== src/Tests.antt =====
-- Runs of the relay on small inputs, and the theorems at such inputs.
mod Sample
mod Sync
pub mod Seals
pub mod Services
pub mod Crews
pub mod Routes
pub mod Observers
pub mod Snapshots
