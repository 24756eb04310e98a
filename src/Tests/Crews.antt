-- ===== src/Tests/Crews.antt =====
-- Crew rooms on concrete inputs.
use balloon_crumbs.Prelude.{
  subst, ◌≡◌, refl, inl, inr, ℕ, String, false, ◌&&◌, none, List, [], ◌∷◌, arith, Bool-cases,
}
use balloon_crumbs.Models.{CrewRoom, CrewRoomDevice, Db, empty}
use balloon_crumbs.Json.{text, Fields, field, end}
use balloon_crumbs.Text.{compare_digest, utf8, utf8_code, codes}
use balloon_crumbs.Crypto.{blind_index}
use balloon_crumbs.Crew.Records.{crew_room_alias_digest, normalise_crew_room_alias}
use balloon_crumbs.Crew.Rows.{CrewEntropy}
use balloon_crumbs.Crew.Access.{authorise_crew_room_device}
use balloon_crumbs.Crew.Handler.{Caller, revoke_crew_room_device}
use balloon_crumbs.Crew.Invariant.{IsCrew}
use balloon_crumbs.Crew.Calls.{create, visit, crew_step, crew_run, crew_run-IsCrew}
use balloon_crumbs.Crew.Owners.{compare_digest_sound}
use balloon_crumbs.Crew.Revoked.{HasDeviceKeys}
use balloon_crumbs.Crew.Refused.{crew_answers, revoke_crew_room_device-refuses}
use balloon_crumbs.Tests.Sample.{env}

abbrev nonce : List ℕ
nonce = 0 ∷ 0 ∷ 0 ∷ 0 ∷ 0 ∷ 0 ∷ 0 ∷ 0 ∷ 0 ∷ 0 ∷ 0 ∷ 0 ∷ []

abbrev entropy : CrewEntropy
entropy = record {
  room_bytes = 1 ∷ [];
  device_bytes = 2 ∷ [];
  invite_bytes = 3 ∷ [];
  alias_nonce = nonce;
  operation_nonce = nonce;
  profile_nonce = nonce;
}

abbrev operation : Fields
operation = field "rideId" (text "ride-1") (
    field "rideCode" (text "123456") (
      field "inviteSecret" (text "0123456789abcdef")
        (field "resolveToken" (text "fedcba9876543210") end)))

abbrev owner : Caller
owner = record {
  alias = "CREW1";
  device_id = "a";
  credential = "crd1_AAAAAAAAAAAAAAAAAAAAAAAAAAAAAAAAAAAAAAAAAAA";
}

empty-IsCrew : IsCrew empty
unfolding IsCrew
empty-IsCrew = (λ _. omega arith, λ _. omega arith, refl)

crew_run-IsCrew_example : IsCrew (
    crew_run env
      ((create entropy owner "Anna" operation "rr1_c2ln", 1000) ∷ (visit owner, 2000) ∷ [])
      empty)
crew_run-IsCrew_example =
    crew_run-IsCrew env
      ((create entropy owner "Anna" operation "rr1_c2ln", 1000) ∷ (visit owner, 2000) ∷ []) empty
      empty-IsCrew

abbrev room : CrewRoom
room = record {
  id = "room_1";
  alias_digest = utf8 "crew-room-alias-v1\nCREW1";
  alias_ciphertext = [];
  owner_device_digest = utf8 "crew-room-device-v1:room_1\na";
  invite_token_hash = [];
  operation_ciphertext = [];
  operation_generation = 1;
  operation_expires_at = 9000;
  created_at = 0;
  updated_at = 0;
}

abbrev device : String → CrewRoomDevice
device id = record {
  room_id = "room_1";
  device_digest = utf8 id;
  credential_hash = codes owner.credential;
  profile_ciphertext = [];
  created_at = 0;
  last_seen_at = 0;
  revoked_at = none;
}

abbrev crew_db : Db
crew_db = record empty {
  crew_rooms = room ∷ [];
  crew_devices =
      device "crew-room-device-v1:room_1\na" ∷ device "crew-room-device-v1:room_1\nb" ∷ [];
}

different :
    (a b digest : List ℕ)
    → compare_digest b a ≡ false
    → (compare_digest a digest && compare_digest b digest) ≡ false
different a b digest apart = elim (Bool-cases (compare_digest a digest)) [
  | inr other ↦ rw other refl
  | inl same ↦
      rw same (subst (λ d. compare_digest b d ≡ false) (compare_digest_sound a digest same) apart)
]

abbrev first_digest : List ℕ
first_digest = utf8 "crew-room-device-v1:room_1\na"

abbrev second_digest : List ℕ
second_digest = utf8 "crew-room-device-v1:room_1\nb"

apart : compare_digest second_digest first_digest ≡ false
unfolding compare_digest utf8 utf8_code
apart = refl

crew_db-HasDeviceKeys : HasDeviceKeys crew_db
unfolding compare_digest
crew_db-HasDeviceKeys id digest = ground (
  arith,
  different (utf8 "crew-room-device-v1:room_1\na") (utf8 "crew-room-device-v1:room_1\nb") digest
      apart,
)

crew_db-IsCrew : IsCrew crew_db
unfolding IsCrew compare_digest utf8 utf8_code
crew_db-IsCrew = (λ id. ground arith, λ digest. ground arith, refl)

abbrev revoked_db : Db
revoked_db = (revoke_crew_room_device env owner "b" 1000 crew_db).1

-- the device that is revoked, which still shows its credential
abbrev revoked_caller : Caller
revoked_caller = record owner { device_id = "b" }

revoke_crew_room_device-refuses_example :
    (crew_answers env (visit revoked_caller) 2000 revoked_db ≡ false)
    × (crew_step env (visit revoked_caller) 2000 revoked_db ≡ revoked_db)
unfolding revoke_crew_room_device normalise_crew_room_alias balloon_crumbs.Text.is_crew_room_alias
    balloon_crumbs.Text.Strip.strip authorise_crew_room_device
    balloon_crumbs.Text.is_device_credential compare_digest utf8 crew_room_alias_digest blind_index
    balloon_crumbs.Crew.Records.crew_room_device_digest balloon_crumbs.Text.is_identifier
    balloon_crumbs.Crypto.token_hash balloon_crumbs.Text.ascii balloon_crumbs.Crew.Rows.revocable
revoke_crew_room_device-refuses_example =
    revoke_crew_room_device-refuses env owner revoked_caller "b" "CREW1" (visit revoked_caller) 1000
      2000 crew_db revoked_db crew_db-IsCrew crew_db-HasDeviceKeys refl refl refl refl refl
