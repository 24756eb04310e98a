-- ===== src/Models.antt =====
-- The tables of the relay (apps/server/src/balloon_crumbs_server/models.py) as lists of rows.
pub mod Rides
use balloon_crumbs.Prelude.{
  ◌≡◌, refl, sym, ap, ◌∙◌, ◌≢◌, ◌↔◌, ◌⊎◌, inl, inr, ℕ, zero, suc, ◌+◌, ◌-◌, ◌*◌, ◌/◌, ◌%◌, ◌^◌, ◌≤◌,
  ◌<◌, min, max, String, Bool, true, false, not, ◌&&◌, ◌||◌, Option, none, some, List, [], ◌∷◌,
  ◌++◌, map, arith, str_eq, eq_iff, ltb, leb, ◌==◌, if◌then◌else◌, ==_iff, ltb→lt, leb→le,
  Bool-cases, Option-cases, is_some, length, take, drop, keep, find, all, any, sum_of, last_or,
  length-append, sum_of-append, sum_of-keep, length-keep-le, keep-append, count_of, contains,
}

pub record Ride : Type 0 where
  pub id : String
  pub token_hash : List ℕ
  pub created_at : ℕ
  pub last_seen_at : ℕ
  pub delete_after : ℕ
  pub ended_at : Option ℕ
  pub stored_event_count : ℕ
  pub stored_event_bytes : ℕ
  pub membership_projection_ready : Bool
  pub authority_root_public_key : Option String

pub record RideJoinCode : Type 0 where
  pub code : String
  pub ride_id : String
  pub token_hash : List ℕ
  pub secret_ciphertext : List ℕ
  pub created_at : ℕ
  pub expires_at : ℕ

pub record RidePlan : Type 0 where
  pub code : String
  pub name : Option String
  pub gpx_ciphertext : List ℕ
  pub created_at : ℕ
  pub expires_at : ℕ

pub record StoredEvent : Type 0 where
  pub sequence : ℕ
  pub ride_id : String
  pub event_id : String
  pub device_id : String
  pub event_type : String
  pub created_at : ℕ
  pub expires_at : Option ℕ
  pub body_hash : List ℕ
  pub body_ciphertext : List ℕ

pub record RideMember : Type 0 where
  pub ride_id : String
  pub device_id : String
  pub role : String
  pub state : String
  pub last_seen_at : ℕ

pub record PreStartPosition : Type 0 where
  pub ride_id : String
  pub rider_id : String
  pub snapshot_ciphertext : List ℕ
  pub received_at : ℕ
  pub expires_at : ℕ

pub record IdempotencyReplay : Type 0 where
  pub ride_id : String
  pub idempotency_key : String
  pub request_hash : List ℕ
  pub response_ciphertext : List ℕ
  pub created_at : ℕ
  pub expires_at : ℕ

pub record ObserverGrant : Type 0 where
  pub id : String
  pub ride_id : String
  pub label : String
  pub scope : String
  pub precision : String
  pub management_token_hash : List ℕ
  pub publisher_token_hash : List ℕ
  pub observer_token_hash : List ℕ
  pub snapshot_ciphertext : Option (List ℕ)
  pub snapshot_updated_at : Option ℕ
  pub snapshot_version_at : Option ℕ
  pub created_at : ℕ
  pub expires_at : ℕ
  pub revoked_at : Option ℕ
  pub last_read_at : Option ℕ

pub record CrewRoom : Type 0 where
  pub id : String
  pub alias_digest : List ℕ
  pub alias_ciphertext : List ℕ
  pub owner_device_digest : List ℕ
  pub invite_token_hash : List ℕ
  pub operation_ciphertext : List ℕ
  pub operation_generation : ℕ
  pub operation_expires_at : ℕ
  pub created_at : ℕ
  pub updated_at : ℕ

pub record CrewRoomDevice : Type 0 where
  pub room_id : String
  pub device_digest : List ℕ
  pub credential_hash : List ℕ
  pub profile_ciphertext : List ℕ
  pub created_at : ℕ
  pub last_seen_at : ℕ
  pub revoked_at : Option ℕ

-- The database. `next_row` counts the rows that have been added to `ride_events`, from 1.
pub record Db : Type 0 where
  pub rides : List Ride
  pub join_codes : List RideJoinCode
  pub plans : List RidePlan
  pub events : List StoredEvent
  pub members : List RideMember
  pub positions : List PreStartPosition
  pub replays : List IdempotencyReplay
  pub observer_grants : List ObserverGrant
  pub crew_rooms : List CrewRoom
  pub crew_devices : List CrewRoomDevice
  pub next_row : ℕ

abbrev pub empty : Db
empty = record {
  rides = [];
  join_codes = [];
  plans = [];
  events = [];
  members = [];
  positions = [];
  replays = [];
  observer_grants = [];
  crew_rooms = [];
  crew_devices = [];
  next_row = 1;
}

-- SQL compares with NULL as neither true nor false, so a row without an expiry passes neither test.
abbrev pub is_expired : ℕ → Option ℕ → Bool
is_expired now none = false
is_expired now (some t) = leb t now

abbrev pub is_live : ℕ → Option ℕ → Bool
is_live now none = false
is_live now (some t) = ltb now t

-- `session.get(Ride, ride_id)`
abbrev pub find_ride : String → List Ride → Option Ride
find_ride id rides = find (λ r. str_eq r.id id) rides

-- What the session writes back for a ride that it has loaded and changed.
unfoldable pub put_ride : Ride → List Ride → List Ride
put_ride ride [] = []
put_ride ride (r ∷ rides) = if str_eq r.id ride.id then ride ∷ rides else r ∷ put_ride ride rides
