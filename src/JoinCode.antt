-- ===== src/JoinCode.antt =====
-- Ride codes: `register_join_code` and `resolve_join_code` of
-- apps/server/src/balloon_crumbs_server/service.py, with their helpers.
pub mod Records
pub mod Handler
pub mod Resolve
