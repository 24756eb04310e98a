-- ===== src/Sync.antt =====
-- Synchronisation: uploading events and downloading them from a cursor (service.py).
pub mod Event
pub mod Store
pub mod Request
pub mod Response
pub mod Handler
pub mod Batch
pub mod Usage
pub mod Accounts
pub mod Commits
pub mod Outcome
pub mod Unique
pub mod Isolation
pub mod Credentials
pub mod Numbered
pub mod Pages
