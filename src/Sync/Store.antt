-- ===== src/Sync/Store.antt =====
-- Storing an accepted batch: `_maximum_event_retention`, `_validate_event_conflicts`,
-- `_store_events` and `_purge_expired_for_ride` of
-- apps/server/src/balloon_crumbs_server/service.py.
use balloon_crumbs.Prelude.{
  ℕ, ◌+◌, ◌-◌, min, max, String, Bool, not, ◌&&◌, ◌||◌, Option, none, some, List, [], ◌∷◌, ◌++◌,
  str_eq, ltb, leb, if◌then◌else◌, is_some, length, keep, find, sum_of, count_of, contains,
}
use balloon_crumbs.Result.{
  relay_service_error, type_error, Result, ok, ◌>>=◌, ◌>>◌, reject, or_raise,
}
use balloon_crumbs.Json.{object, Fields, get, as_object}
use balloon_crumbs.Models.{Ride, StoredEvent, Db, is_expired}
use balloon_crumbs.Text.{utf8, compare_digest}
use balloon_crumbs.Text.Parts.{append, format}
use balloon_crumbs.Env.{Env, minutes, hours}
use balloon_crumbs.Crypto.{encrypt_json}
use balloon_crumbs.Membership.{MembershipEvent}
use balloon_crumbs.Sync.Event.{ValidatedEvent}

unfoldable pub event_aad : String → String → List ℕ
event_aad ride_id event_id = utf8 (format ("event:" ∷ ride_id ∷ ":" ∷ event_id ∷ []))

-- `retentions.get(event_type, timedelta(hours=72))`
abbrev retention_or : ℕ → String → List (String × ℕ) → ℕ
retention_or default event_type [] = default
retention_or default event_type ((name, time) ∷ rest) =
    if str_eq event_type name then time else retention_or default event_type rest

abbrev retentions : List (String × ℕ)
retentions =
    ("riderLocationUpdated", minutes 30)
    ∷ ("statusMessage", hours 2)
    ∷ ("hazardReported", hours 24)
    ∷ ("hazardCleared", hours 24)
    ∷ ("iceInfoShared", hours 2)
    ∷ ("iceInfoViewed", hours 2)
    ∷ ("riderContactShared", hours 2)
    ∷ ("craftRegistered", hours 72)
    ∷ ("deviceAttachedToCraft", hours 72)
    ∷ ("craftPrimaryDeviceNominated", hours 72)
    ∷ ("craftChaseAssigned", hours 72)
    ∷ ("flightStartedByCrew", hours 72)
    ∷ ("flightLanded", hours 72)
    ∷ ("flightLandingRetracted", hours 72)
    ∷ ("landingAreaNoted", hours 72)
    ∷ ("windContextNoted", hours 72)
    ∷ ("operationalBoundaryUpserted", hours 72)
    ∷ ("operationalBoundaryRemoved", hours 72)
    ∷ ("operationalBoundaryAlerted", hours 2)
    ∷ ("chaseGuidanceTargetSelected", hours 72)
    ∷ ("pilotHandoverOffered", hours 72)
    ∷ ("pilotHandoverAccepted", hours 72)
    ∷ ("deviceAuthorityRevoked", hours 72)
    ∷ ("deviceAuthorityRotated", hours 72)
    ∷ []

unfoldable pub maximum_event_retention : String → ℕ
maximum_event_retention event_type = retention_or (hours 72) event_type retentions

abbrev pub event_of : String → StoredEvent → Bool
event_of ride_id e = str_eq e.ride_id ride_id

abbrev pub event_at : String → String → StoredEvent → Bool
event_at ride_id event_id e = str_eq e.ride_id ride_id && str_eq e.event_id event_id

-- The first event whose identity is stored with another body raises; the identities that are
-- stored already are the result.
unfoldable pub validate_event_conflicts :
    String → List ValidatedEvent → List StoredEvent → Result (List String)
validate_event_conflicts ride_id [] stored = ok []
validate_event_conflicts ride_id (event ∷ events) stored =
    elim (find (event_at ride_id event.event_id) stored) [
      | none ↦ validate_event_conflicts ride_id events stored
      | some previous ↦
          reject (not (compare_digest previous.body_hash event.body_hash))
            (relay_service_error 409 (append "Event identity conflict: " event.event_id))
          >> (validate_event_conflicts ride_id events stored >>= λ rest. ok (event.event_id ∷ rest))
    ]

-- the variables of the loop in `_store_events`, with the rows that it has added to the session
pub record Batch : Type 0 where
  pub ride : Ride
  pub added : List StoredEvent
  pub membership : List MembershipEvent
  pub next_row : ℕ

-- `ended_at` and `delete_after` after an event that ends or reopens the ride
unfoldable pub lifecycle : Env → ℕ → String → Ride → Ride
lifecycle env now event_type ride =
    if str_eq event_type "rideEnded" && not (is_some ride.ended_at)
    then record ride {
      ended_at = some now;
      delete_after = min ride.delete_after (now + hours env.settings.ended_ride_grace_hours);
    }
    else if str_eq event_type "rideReopened" && is_some ride.ended_at
    then record ride {
      ended_at = none;
      delete_after = max ride.delete_after (now + hours env.settings.ride_retention_hours);
    }
    else ride

abbrev min_opt : ℕ → Option ℕ → ℕ
min_opt a none = a
min_opt a (some b) = min a b

unfoldable pub event_expiry : ℕ → Ride → ValidatedEvent → ℕ
event_expiry now ride event =
    min (min_opt (now + maximum_event_retention event.event_type) event.client_expires_at)
      ride.delete_after

-- the `StoredEvent` that is added for an event, under the key that the database gives it
unfoldable pub new_row : Env → ℕ → ValidatedEvent → List ℕ → Batch → StoredEvent
new_row env now event body_ciphertext b = record {
  sequence = env.row_key b.next_row;
  ride_id = b.ride.id;
  event_id = event.event_id;
  device_id = event.device_id;
  event_type = event.event_type;
  created_at = event.created_at;
  expires_at = some (event_expiry now b.ride event);
  body_hash = event.body_hash;
  body_ciphertext = body_ciphertext;
}

-- the `MembershipEvent` that is added for an event
unfoldable pub membership_of : ValidatedEvent → Fields → MembershipEvent
membership_of event payload = record {
  device_id = event.device_id;
  event_type = event.event_type;
  created_at = event.created_at;
  payload = payload;
}

-- the ride with the event counted, and ended or reopened by it
unfoldable pub count_event : Env → ℕ → ValidatedEvent → List ℕ → Ride → Ride
unfolding lifecycle
count_event env now event body_ciphertext ride = lifecycle env now event.event_type (record ride {
  stored_event_count = ride.stored_event_count + 1;
  stored_event_bytes = ride.stored_event_bytes + length body_ciphertext;
})

-- a row for the event, after the quotas of the ride
unfoldable pub add_event : Env → ℕ → ValidatedEvent → List ℕ → Batch → Result Batch
add_event env now event body_ciphertext b = do
  reject
      (ltb env.settings.maximum_events_per_ride (b.ride.stored_event_count + 1)
        || ltb env.settings.maximum_stored_bytes_per_ride
            (b.ride.stored_event_bytes + length body_ciphertext))
      (relay_service_error 413 "Ride storage quota exceeded")
  payload ← or_raise (as_object (get "payload" event.body)) type_error
  ok (record {
    ride = count_event env now event body_ciphertext b.ride;
    added = b.added ++ new_row env now event body_ciphertext b ∷ [];
    membership = b.membership ++ membership_of event payload ∷ [];
    next_row = b.next_row + 1;
  })

-- One round of the loop. `nonces` are the draws of `os.urandom`, by the number of the row.
unfoldable pub store_event :
    Env → (ℕ → List ℕ) → ℕ → List String → ValidatedEvent → Batch → Result Batch
unfolding add_event event_expiry
store_event env nonces now existing event b =
    if contains str_eq event.event_id existing
    then ok b
    else if leb (event_expiry now b.ride event) now
    then ok b
    else (do
      body_ciphertext ←
          encrypt_json env (nonces b.next_row) (object event.body)
            (event_aad b.ride.id event.event_id)
      add_event env now event body_ciphertext b)

unfoldable pub store_events :
    Env → (ℕ → List ℕ) → ℕ → List String → List ValidatedEvent → Batch → Result Batch
unfolding store_event
store_events env nonces now existing [] b = ok b
store_events env nonces now existing (event ∷ events) b = do
  b' ← store_event env nonces now existing event b
  store_events env nonces now existing events b'

abbrev pub expired_event : String → ℕ → StoredEvent → Bool
expired_event ride_id now e = event_of ride_id e && is_expired now e.expires_at

-- The ride is the row that the session holds, and is written back by the caller.
unfoldable pub purge_ride : ℕ → Ride → List StoredEvent → Ride
purge_ride now ride events = record ride {
  stored_event_count = ride.stored_event_count - count_of (expired_event ride.id now) events;
  stored_event_bytes =
      ride.stored_event_bytes
      - sum_of (expired_event ride.id now) (λ e. length e.body_ciphertext) events;
}

unfoldable pub purge_rows : ℕ → String → Db → Db
purge_rows now ride_id db = record db {
  events = keep (λ e. not (expired_event ride_id now e)) db.events;
  replays = keep (λ r. not (str_eq r.ride_id ride_id && leb r.expires_at now)) db.replays;
}
