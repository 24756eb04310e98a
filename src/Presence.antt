-- ===== src/Presence.antt =====
-- Live positions and the roster: `synchronize_pre_start_presence` of
-- apps/server/src/balloon_crumbs_server/service.py and what it calls.
pub mod Authority
pub mod Roster
pub mod Request
pub mod Handler
pub mod Phase
pub mod Keeps
pub mod Slots
