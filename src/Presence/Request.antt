-- ===== src/Presence/Request.antt =====
-- The request for live positions and its checks: `PresenceSyncRequest` of
-- apps/server/src/balloon_crumbs_server/schemas.py and the guards of
-- `synchronize_pre_start_presence` of apps/server/src/balloon_crumbs_server/service.py.
use balloon_crumbs.Prelude.{
  ℕ, ◌+◌, String, Bool, not, Option, none, some, ltb, if◌then◌else◌, is_some,
}
use balloon_crumbs.Result.{relay_service_error, Result, ok, err, ◌>>=◌, ◌>>◌, reject, or_raise}
use balloon_crumbs.Json.{object, Fields}
use balloon_crumbs.Models.{Db, find_ride}
use balloon_crumbs.Text.{compare_digest, is_token}
use balloon_crumbs.Env.{Env, minutes}
use balloon_crumbs.Crypto.{token_hash}
use balloon_crumbs.Sync.Request.{validate_identity}
use balloon_crumbs.Presence.Authority.{Proof, verify_presence_authority, ride_uses_device_authority}

-- a position as the phone sent it, with the time of its sample
pub record Position : Type 0 where
  pub raw : Fields
  pub recorded_at : ℕ

-- `PresenceSyncRequest`, with the headers and the capabilities that the endpoint passes on
pub record PresenceSyncRequest : Type 0 where
  pub ride_id : String
  pub bearer_token : String
  pub device_header : String
  pub device_id : String
  pub position : Option Position
  pub clear : Bool
  pub proof : Proof
  pub live_presence : Bool
  pub client_protocol : ℕ

-- the sample's time window
unfoldable pub check_sample : Option Position → ℕ → Result (Unit {0})
check_sample none now = ok tt
check_sample (some p) now =
    if ltb (p.recorded_at + minutes 5) now
    then err (relay_service_error 400 "Presence sample is too old")
    else reject (ltb (now + minutes 2) p.recorded_at)
        (relay_service_error 400 "Presence sample is from the future")

-- the checks before the transaction
unfoldable pub check_presence : PresenceSyncRequest → ℕ → Result (Unit {0})
unfolding check_sample
check_presence q now = do
  validate_identity q.ride_id q.device_id q.device_header
  reject (not (is_token q.bearer_token)) (relay_service_error 401 "Ride credential rejected")
  check_sample q.position now

module _ (env : Env) where
  unfoldable pub check_proof : PresenceSyncRequest → Bool → ℕ → Result (Unit {0})
  check_proof q authority_required now =
      if is_some q.proof.authority_version
      then verify_presence_authority env q.ride_id q.device_id
          (elim q.position [ none ↦ none | some p ↦ some (object p.raw) ]) q.clear q.proof now
      else reject authority_required (relay_service_error 403 "Device authority proof required")

  -- the checks against the ride, which write nothing
  unfoldable pub check_ride : PresenceSyncRequest → ℕ → Db → Result (Unit {0})
  unfolding check_proof
  check_ride q now db = do
    ride ←
        or_raise (find_ride q.ride_id db.rides)
          (relay_service_error 404 "Ride is not ready for presence")
    hash ← token_hash env q.bearer_token
    reject (not (compare_digest ride.token_hash hash))
        (relay_service_error 403 "Ride credential rejected")
    required ← ride_uses_device_authority env q.ride_id db.events
    check_proof q required now
