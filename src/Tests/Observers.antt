-- ===== src/Tests/Observers.antt =====
-- Observer access on concrete inputs.
use balloon_crumbs.Prelude.{
  ◌≡◌, refl, ℕ, zero, suc, String, true, none, some, List, [], ◌∷◌, arith, ltb, if◌then◌else◌,
  is_some,
}
use balloon_crumbs.Result.{ok}
use balloon_crumbs.Models.{Ride, ObserverGrant, Db, empty}
use balloon_crumbs.Json.{text, natural, object, Fields, field, end}
use balloon_crumbs.Text.{codes, text_len}
use balloon_crumbs.Env.{Env}
use balloon_crumbs.Observer.Pilot.{Authority, no_authority, apply_rows, pilot_of}
use balloon_crumbs.Observer.Pilot.Remains.{apply_rows-remains}
use balloon_crumbs.Observer.Request.{CreateGrantRequest}
use balloon_crumbs.Observer.Access.{authorized_grant, is_management_token}
use balloon_crumbs.Observer.Grants.{GrantEntropy, create_observer_grant, revoke_observer_grant}
use balloon_crumbs.Observer.Limit.{IsWithinLimit, create_observer_grant-IsWithinLimit}
use balloon_crumbs.Observer.Refusals.{revoke_observer_grant-final}
use balloon_crumbs.Tests.Sample.{env, row, token}

-- the event in which a device creates the flight as its pilot
abbrev creation : Fields
creation = field "schemaVersion" (natural 2) (
    field "deviceId" (text "bcd1_c2ln") (
      field "devicePublicKey" (text "key") (
        field "deviceSignature" (text "signature") (
          field "type" (text "rideCreated")
            (field "payload" (object (field "flightRole" (text "pilot") end)) end)))))

abbrev bytes : ℕ → List ℕ
bytes zero = []
bytes (suc n) = 7 ∷ bytes n

-- Keys decode to 32 bytes and signatures to 64, and every signature holds.
abbrev flight_env : Env
flight_env = record env {
  loads = λ b. some (object creation);
  urlsafe_b64decode = λ s. some (bytes (if ltb (text_len s) 6 then 32 else 64));
  verify = λ k s m. true;
}

abbrev piloted : Authority
piloted = record no_authority {
  pilot_device_id = some "bcd1_c2ln";
  device_keys = ("bcd1_c2ln", "key") ∷ [];
}

apply_rows-remains_example : is_some (pilot_of piloted) ≡ true
unfolding apply_rows balloon_crumbs.Crypto.decrypt_json
    balloon_crumbs.Observer.Signatures.verify_event_signature
    balloon_crumbs.Observer.Signatures.device_id_matches balloon_crumbs.Crypto.compare_text
    balloon_crumbs.Crypto.base64url balloon_crumbs.Text.Parts.rstrip
    balloon_crumbs.Observer.Pilot.put_key pilot_of
apply_rows-remains_example =
    apply_rows-remains flight_env "ride-1" "key" (row 1 "e1" ∷ []) (row 2 "e2" ∷ []) piloted piloted
      refl refl refl

abbrev grant_entropy : GrantEntropy
grant_entropy = record {
  id = "grant-1";
  management_bytes = 1 ∷ [];
  publisher_bytes = 2 ∷ [];
  observer_bytes = 3 ∷ [];
}

abbrev grant_request : CreateGrantRequest
grant_request = record {
  label = " ground  crew ";
  duration_minutes = 60;
  scope = "rider";
  precision = "reduced";
  pilot_authorization = none;
}

abbrev ride : Ride
ride = record {
  id = "ride-1";
  token_hash = codes token;
  created_at = 0;
  last_seen_at = 0;
  delete_after = 9000000000;
  ended_at = none;
  stored_event_count = 0;
  stored_event_bytes = 0;
  membership_projection_ready = true;
  authority_root_public_key = none;
}

abbrev ride_db : Db
ride_db = record empty { rides = ride ∷ [] }

ride_db-IsWithinLimit : IsWithinLimit env 1000 ride_db
unfolding IsWithinLimit
ride_db-IsWithinLimit ride_id = omega arith

create_observer_grant-IsWithinLimit_example :
    IsWithinLimit env 1000
      (create_observer_grant env grant_entropy "ride-1" token grant_request 1000 ride_db).1
create_observer_grant-IsWithinLimit_example =
    create_observer_grant-IsWithinLimit env grant_entropy grant_request 1000 "ride-1" token ride_db
      ride_db-IsWithinLimit

abbrev management_token : String
management_token = "om1_AAAAAAAAAAAAAAAAAAAAAAAAAAAAAAAAAAAAAAAAAAA"

abbrev grant : ObserverGrant
grant = record {
  id = "grant-1";
  ride_id = "ride-1";
  label = "ground crew";
  scope = "rider";
  precision = "reduced";
  management_token_hash = codes management_token;
  publisher_token_hash = [];
  observer_token_hash = [];
  snapshot_ciphertext = none;
  snapshot_updated_at = none;
  snapshot_version_at = none;
  created_at = 0;
  expires_at = 9000;
  revoked_at = none;
  last_read_at = none;
}

abbrev grant_db : Db
grant_db = record empty { observer_grants = grant ∷ [] }

abbrev revoked_db : Db
revoked_db = (revoke_observer_grant env "grant-1" management_token 1000 grant_db).1

revoke_observer_grant-final_example :
    ¬ (
      authorized_grant env "grant-1" management_token is_management_token
        (λ g. g.management_token_hash)
        2000
        revoked_db
      ≡ ok grant)
    × ¬ (revoke_observer_grant env "grant-1" management_token 2000 revoked_db ≡ (ok tt, revoked_db))
unfolding revoke_observer_grant is_management_token balloon_crumbs.Crypto.token_hash
    balloon_crumbs.Text.ascii balloon_crumbs.Text.compare_digest
revoke_observer_grant-final_example =
    revoke_observer_grant-final env "grant-1" management_token management_token management_token
      is_management_token (λ g. g.management_token_hash) 1000 2000 grant_db revoked_db revoked_db
      grant (omega arith) refl
