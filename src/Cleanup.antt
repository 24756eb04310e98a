-- ===== src/Cleanup.antt =====
-- The periodic cleanup of all tables: `purge_expired` of
-- apps/server/src/balloon_crumbs_server/service.py.
pub mod Accounts
use balloon_crumbs.Prelude.{
  ℕ, String, Bool, not, ◌&&◌, List, map, str_eq, ltb, leb, keep, any, count_of,
}
use balloon_crumbs.Models.{Ride, StoredEvent, Db, is_expired}
use balloon_crumbs.Sync.Store.{purge_ride}

-- the rows that were deleted, as the function returns them
pub record Purged : Type 0 where
  pub events : ℕ
  pub replays : ℕ
  pub rides : ℕ
  pub join_codes : ℕ
  pub plans : ℕ
  pub observers : ℕ
  pub pre_start_positions : ℕ

-- Deleting a ride deletes the rows that reference it (`ondelete="CASCADE"` in models.py).
abbrev pub is_kept : ℕ → List Ride → String → Bool
is_kept now rides id = not (any (λ r. str_eq r.id id && leb r.delete_after now) rides)

-- the counters of every ride with an expired event
unfoldable pub discount : ℕ → List StoredEvent → List Ride → List Ride
discount now events rides = map (λ r. purge_ride now r events) rides

unfoldable pub purge_expired : ℕ → Db → Purged × Db
unfolding discount
purge_expired now db =
    let rides = discount now db.events db.rides in
    let events = keep (λ e. not (is_expired now e.expires_at)) db.events in
    let replays = keep (λ r. ltb now r.expires_at) db.replays in
    let is_referenced = is_kept now db.rides in
    let members = keep (λ m. is_referenced m.ride_id) db.members in
    let positions = keep (λ p. is_referenced p.ride_id) db.positions in
    let grants = keep (λ g. is_referenced g.ride_id) db.observer_grants in
    (
      record {
        events = count_of (λ e. is_expired now e.expires_at) db.events;
        replays = count_of (λ r. leb r.expires_at now) db.replays;
        rides = count_of (λ r. leb r.delete_after now) rides;
        join_codes = count_of (λ r. leb r.expires_at now) db.join_codes;
        plans = count_of (λ r. leb r.expires_at now) db.plans;
        observers = count_of (λ g. leb g.expires_at now) grants;
        pre_start_positions = count_of (λ p. leb p.expires_at now) positions;
      },
      record db {
        rides = keep (λ r. ltb now r.delete_after) rides;
        events = keep (λ e. is_referenced e.ride_id) events;
        replays = keep (λ r. is_referenced r.ride_id) replays;
        members = members;
        join_codes = keep (λ r. ltb now r.expires_at) db.join_codes;
        plans = keep (λ r. ltb now r.expires_at) db.plans;
        observer_grants = keep (λ g. ltb now g.expires_at) grants;
        positions = keep (λ p. ltb now p.expires_at) positions;
      },
    )
