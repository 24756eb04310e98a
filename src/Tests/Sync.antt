-- ===== src/Tests/Sync.antt =====
-- Synchronisations of a sample ride.
use balloon_crumbs.Json.{end, object}
use balloon_crumbs.Text.{
  is_token, is_idempotency_key, is_identifier, is_signature, ascii, utf8, compare_digest,
}
use balloon_crumbs.Text.Parts.{rstrip, decimal}
use balloon_crumbs.Env.{minutes, hours}
use balloon_crumbs.Prelude.Order.{order_by}
use balloon_crumbs.Crypto.{
  token_hash, encrypt_json, decrypt_json, base64url, decode_cursor, encode_cursor,
}
use balloon_crumbs.Membership.{project_membership_events}
use balloon_crumbs.Sync.Event.{validate_event, same_set, ValidatedEvent}
use balloon_crumbs.Sync.Event.Shape.{validate_json_shape}
use balloon_crumbs.Sync.Store.{
  purge_ride, purge_rows, validate_event_conflicts, store_events, event_aad,
  maximum_event_retention, new_row, membership_of, count_event, Batch,
}
use balloon_crumbs.Sync.Request.{check_request}
use balloon_crumbs.Sync.Handler.{
  within_ride, get_or_claim_ride, upload, save_batch, discard_positions, keep_replay, replay_aad,
  touch_ride, synchronize,
}
use balloon_crumbs.Sync.Response.{model_dump, SyncResponse, build_response, pending}
use balloon_crumbs.Models.{put_ride, Ride, empty, Db}
use balloon_crumbs.Prelude.{
  ◌≡◌, refl, ℕ, ◌≤◌, some, [], ◌∷◌, arith, take, drop, none, true, List, ◌++◌,
}
use balloon_crumbs.Result.{ok}
use balloon_crumbs.Crypto.Cursor.{CodecLaws, decode-encode, decode_cursor-issued}
use balloon_crumbs.Sync.Accounts.{IsAccounted}
use balloon_crumbs.Sync.Isolation.{IsUntouched, synchronize-IsUntouched}
use balloon_crumbs.Sync.Credentials.{IsAuthentic, synchronize-IsAuthentic}
use balloon_crumbs.Sync.Unique.{IsUnique, synchronize-IsUnique}
use balloon_crumbs.Sync.Outcome.{synchronize-IsAccounted}
use balloon_crumbs.Sync.Pages.{Bodies, build_response_resumes}
use balloon_crumbs.Sync.Event.Sound.{IsSound, validate_event-IsSound}
use balloon_crumbs.Sync.Usage.{IsWithinQuota, store_events-IsWithinQuota}
use balloon_crumbs.Tests.Sample.{zeros, event, env, entropy, upload_two, row}

pub env-CodecLaws : CodecLaws env
unfolding base64url rstrip
env-CodecLaws = record {
  digit = λ d h. ground arith;
  value = λ d h. ground arith;
  ascii = λ b. refl;
  dotless = λ b. refl;
}

abbrev answer : SyncResponse
answer = record { cursor = "rrc1.1.c2ln"; accepted_event_ids = "e1" ∷ "e2" ∷ []; events = end ∷ [] }

run : (synchronize env entropy upload_two 1000 empty).0 ≡ ok answer
unfolding synchronize check_request validate_event same_set validate_json_shape decode_cursor
    is_token is_idempotency_key is_identifier is_signature within_ride get_or_claim_ride token_hash
    ascii compare_digest purge_ride purge_rows put_ride upload save_batch validate_event_conflicts
    store_events encrypt_json decrypt_json utf8 event_aad maximum_event_retention new_row
    membership_of count_event project_membership_events discard_positions build_response pending
    order_by keep_replay model_dump replay_aad touch_ride encode_cursor base64url rstrip decimal
    minutes hours
run = refl

-- The cursor of the second event is read back as 2.
decode-encode_example : decode_cursor env "ride-1" (some (encode_cursor env "ride-1" 2)) ≡ ok 2
decode-encode_example = decode-encode env env-CodecLaws "ride-1" 2

decode_cursor-issued_example : encode_cursor env "ride-1" 2 ≡ encode_cursor env "ride-1" 2
decode_cursor-issued_example =
    decode_cursor-issued env "ride-1" (encode_cursor env "ride-1" 2) 2 decode-encode_example

synchronize-IsAccounted_example :
    let db' = (synchronize env entropy upload_two 1000 empty).1 in IsAccounted db'.rides db'.events
synchronize-IsAccounted_example =
    synchronize-IsAccounted env entropy 1000 upload_two empty
      (record { counted = λ i. refl; sized = λ i. refl })

synchronize-IsUnique_example : IsUnique (synchronize env entropy upload_two 1000 empty).1.events
synchronize-IsUnique_example =
    synchronize-IsUnique env entropy 1000 upload_two empty (λ r i. omega arith)

abbrev claimed_ride : Ride
claimed_ride = record {
  id = "ride-1";
  token_hash = 1 ∷ [];
  created_at = 0;
  last_seen_at = 0;
  delete_after = 9000;
  ended_at = none;
  stored_event_count = 0;
  stored_event_bytes = 0;
  membership_projection_ready = true;
  authority_root_public_key = none;
}

-- Another ride, with an event that has expired.
abbrev other_db : Db
other_db = record empty {
  rides = record claimed_ride { id = "ride-2" } ∷ [];
  events = record (row 1 "e1") { ride_id = "ride-2"; expires_at = some 5 } ∷ [];
}

synchronize-IsUntouched_example :
    IsUntouched "ride-2" other_db (synchronize env entropy upload_two 1000 other_db).1
synchronize-IsUntouched_example =
    synchronize-IsUntouched env entropy 1000 "ride-2" upload_two other_db refl

synchronize-IsAuthentic_example :
    IsAuthentic env entropy 1000 upload_two empty (synchronize env entropy upload_two 1000 empty).1
synchronize-IsAuthentic_example =
    synchronize-IsAuthentic env entropy 1000 upload_two empty answer run

-- Two rows are pending, one is sent, and the cursor of the response leaves the other.
build_response_resumes_example :
    let events = row 1 "e1" ∷ row 2 "e2" ∷ [] in
    let response : SyncResponse = record {
      cursor = encode_cursor env "ride-1" 1;
      accepted_event_ids = [];
      events = end ∷ [];
    } in
    (size last : ℕ) × (size ≤ env.settings.maximum_download_events)
    × Bodies env "ride-1" [] (take size (pending "ride-1" 0 2000 events)) response.events
    × (decode_cursor env "ride-1" (some response.cursor) ≡ ok last)
    × (pending "ride-1" last 2000 events ≡ drop size (pending "ride-1" 0 2000 events))
unfolding build_response pending order_by decrypt_json utf8
build_response_resumes_example =
    build_response_resumes env env-CodecLaws "ride-1" [] 0 2000 3 (row 1 "e1" ∷ row 2 "e2" ∷ [])
      (record { cursor = encode_cursor env "ride-1" 1; accepted_event_ids = []; events = end ∷ [] })
      (omega arith) refl

abbrev validated : ValidatedEvent
validated = record {
  body = event "e1" "rideCreated" (object end);
  encoded = 123 ∷ 125 ∷ [];
  body_hash = 123 ∷ 125 ∷ [];
  event_id = "e1";
  device_id = "device-1";
  event_type = "rideCreated";
  created_at = 1000;
  client_expires_at = none;
}

validate_event-IsSound_example :
    IsSound env (event "e1" "rideCreated" (object end)) "ride-1" 1000 validated
unfolding validate_event same_set validate_json_shape is_identifier is_signature utf8 minutes
validate_event-IsSound_example =
    validate_event-IsSound env (event "e1" "rideCreated" (object end)) "ride-1" 1000 validated refl

abbrev before : Batch
before = record { ride = claimed_ride; added = []; membership = []; next_row = 1 }

abbrev sealed : List ℕ
sealed = entropy.event_nonce 1 ++ zeros ++ 123 ∷ 125 ∷ []

abbrev after : Batch
after = record {
  ride = record claimed_ride { stored_event_count = 1; stored_event_bytes = 30 };
  added =
      record {
        sequence = 1;
        ride_id = "ride-1";
        event_id = "e1";
        device_id = "device-1";
        event_type = "rideCreated";
        created_at = 1000;
        expires_at = some 9000;
        body_hash = 123 ∷ 125 ∷ [];
        body_ciphertext = sealed;
      }
      ∷ [];
  membership =
      record {
        device_id = "device-1";
        event_type = "rideCreated";
        created_at = 1000;
        payload = end;
      }
      ∷ [];
  next_row = 2;
}

store_events-IsWithinQuota_example : IsWithinQuota env entropy.event_nonce 1000 [] after.ride
unfolding store_events encrypt_json utf8 event_aad maximum_event_retention new_row membership_of
    count_event minutes hours
store_events-IsWithinQuota_example =
    store_events-IsWithinQuota env entropy.event_nonce 1000 [] (validated ∷ []) before after refl
      (omega arith, omega arith)
