-- ===== src/Observer.antt =====
-- Observer access (apps/server/src/balloon_crumbs_server/observer.py): grants, and the device that
-- may open a whole flight to an observer.
pub mod Signatures
pub mod Pilot
pub mod Request
pub mod Access
pub mod Grants
pub mod Limit
pub mod Refusals
pub mod Snapshot
pub mod Merge
pub mod Publish
pub mod Newest
pub mod Latest
pub mod View
pub mod Read
pub mod Scopes
pub mod Precision
pub mod Reduced
