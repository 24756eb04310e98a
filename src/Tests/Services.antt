-- ===== src/Tests/Services.antt =====
-- Live positions, ride codes and the limiter on concrete inputs.
use balloon_crumbs.Prelude.{◌≡◌, refl, ◌+◌, ◌≤◌, true, false, none, some, [], ◌∷◌, arith}
use balloon_crumbs.Result.{ok}
use balloon_crumbs.Json.{end}
use balloon_crumbs.Models.{Ride, empty}
use balloon_crumbs.Env.{seconds}
use balloon_crumbs.Crypto.{base64url, token_hash, compare_text, encrypt_json}
use balloon_crumbs.Presence.Authority.{Proof}
use balloon_crumbs.Presence.Request.{PresenceSyncRequest}
use balloon_crumbs.Presence.Handler.{synchronize_pre_start_presence}
use balloon_crumbs.Presence.Slots.{HasCapacity, synchronize_pre_start_presence-HasCapacity}
use balloon_crumbs.JoinCode.Records.{Registration, Resolved}
use balloon_crumbs.JoinCode.Handler.{register_join_code, resolve_join_code}
use balloon_crumbs.JoinCode.Resolve.{resolved_of, resolve_join_code-registered}
use balloon_crumbs.Presence.Roster.{phase_of}
use balloon_crumbs.Presence.Phase.{phase_in, advance_all, not_begun, phase_of-advance_all}
use balloon_crumbs.Sync.Accounts.{IsAccounted}
use balloon_crumbs.Cleanup.{purge_expired}
use balloon_crumbs.Cleanup.Accounts.{purge_expired-IsAccounted}
use balloon_crumbs.RateLimit.{SlidingWindowRateLimiter, check, admitted}
use balloon_crumbs.RateLimit.Retry.{check_retries}
use balloon_crumbs.RateLimit.Window.{within, serve, serve-within-le}
use balloon_crumbs.RateLimit.Bounds.{IsBounded, check-IsBounded}
use balloon_crumbs.Tests.Sample.{row, env, token}
use balloon_crumbs.Tests.Seals.{sealing_env, sealing_env-SealLaws, nonce}

abbrev no_proof : Proof
no_proof = record {
  authority_version = none;
  signed_at_milliseconds = none;
  public_key = none;
  signature = none;
}

abbrev publishes : PresenceSyncRequest
publishes = record {
  ride_id = "ride-1";
  bearer_token = token;
  device_header = "device-1";
  device_id = "device-1";
  position = some (record { raw = end; recorded_at = 1000 });
  clear = false;
  proof = no_proof;
  live_presence = true;
  client_protocol = 2;
}

synchronize_pre_start_presence-HasCapacity_example :
    HasCapacity env (synchronize_pre_start_presence env nonce publishes 1000 empty).1
synchronize_pre_start_presence-HasCapacity_example =
    synchronize_pre_start_presence-HasCapacity env nonce publishes 1000 empty
      (λ r. omega arith, λ r i. omega arith)

abbrev registration : Registration
registration = record {
  ride_code = "123456";
  ride_id = "ride-1";
  invite_secret = "0123456789abcdef";
  bearer_token = "rr1_c2ln";
  resolve_token = "fedcba9876543210";
  authority_root_public_key = none;
}

resolve_join_code-registered_example :
    (resolve_join_code sealing_env "123456"
      (some "fedcba9876543210")
      1000
      (register_join_code sealing_env nonce registration 1000 empty).1).0
    ≡ ok (resolved_of registration)
unfolding register_join_code balloon_crumbs.JoinCode.Records.check_registration
    balloon_crumbs.Text.is_identifier compare_text base64url balloon_crumbs.Text.Parts.rstrip
    token_hash balloon_crumbs.Text.ascii encrypt_json balloon_crumbs.JoinCode.Records.secret_of
    balloon_crumbs.Sync.Handler.get_or_claim_ride balloon_crumbs.JoinCode.Handler.expire_codes
    balloon_crumbs.Text.compare_digest
resolve_join_code-registered_example =
    resolve_join_code-registered sealing_env sealing_env-SealLaws nonce registration 1000 empty
      (omega arith) refl refl refl

abbrev limiter : SlidingWindowRateLimiter
limiter = record { maximum_requests = 1; window_seconds = 60; maximum_keys = 1 }

check-IsBounded_example : IsBounded limiter (check limiter "a" 7000000 (("b", 1000000 ∷ []) ∷ [])).1
check-IsBounded_example =
    check-IsBounded limiter "a" 7000000 (("b", 1000000 ∷ []) ∷ [])
      (record { keys = omega arith; times = refl })

-- The second of two requests is refused, told to wait for 54 seconds, and admitted after them.
check_retries_example :
    (check limiter "a"
      (8000000 + seconds 54)
      (check limiter "a" 8000000 (("a", 1000000 ∷ []) ∷ [])).1).0
    ≡ admitted
unfolding check seconds
check_retries_example =
    check_retries limiter "a" 8000000 54 (("a", 1000000 ∷ []) ∷ []) (omega arith) (omega arith)
      (record { keys = omega arith; times = refl }) refl refl

-- A ride that was ended and reopened has started.
phase_of-advance_all_example :
    phase_of ("rideStarted" ∷ "rideEnded" ∷ "rideReopened" ∷ [])
    ≡ phase_in (advance_all not_begun ("rideStarted" ∷ "rideEnded" ∷ "rideReopened" ∷ []))
phase_of-advance_all_example =
    phase_of-advance_all ("rideStarted" ∷ "rideEnded" ∷ "rideReopened" ∷ [])

-- The second of two calls in one second is refused.
serve-within-le_example :
    within limiter 1500000 "a" (serve limiter (("a", 1000000) ∷ ("a", 1500000) ∷ []) [] []).0 ≤ 1
serve-within-le_example =
    serve-within-le limiter (("a", 1000000) ∷ ("a", 1500000) ∷ []) "a" 1500000
      (omega arith, (omega arith, tt)) (omega arith)

abbrev quiet_ride : Ride
quiet_ride = record {
  id = "ride-1";
  token_hash = [];
  created_at = 0;
  last_seen_at = 0;
  delete_after = 99000;
  ended_at = none;
  stored_event_count = 1;
  stored_event_bytes = 29;
  membership_projection_ready = true;
  authority_root_public_key = none;
}

-- The only event of a ride expires, and the ride stays.
purge_expired-IsAccounted_example :
    let db' =
      (purge_expired 9000 (record empty { rides = quiet_ride ∷ []; events = row 1 "e1" ∷ [] })).1 in
    IsAccounted db'.rides db'.events
purge_expired-IsAccounted_example =
    purge_expired-IsAccounted 9000
      (record empty { rides = quiet_ride ∷ []; events = row 1 "e1" ∷ [] }) (refl, tt)
      (record { counted = λ i. ground arith; sized = λ i. ground arith })
