-- ===== src/Crew.antt =====
-- Crew rooms: named directories of devices that share a ride, in
-- apps/server/src/balloon_crumbs_server/service.py.
pub mod Records
pub mod Tables
pub mod Counts
pub mod Owners
pub mod Access
pub mod Rows
pub mod Handler
pub mod Invariant
pub mod Authorised
pub mod Keeps
pub mod Led
pub mod Arrivals
pub mod Calls
pub mod Revoked
pub mod Refused
