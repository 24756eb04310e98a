-- ===== src/Crew/Rows.antt =====
-- The rows that the crew room operations write: a room and its owner, a device that joins, and the
-- changes to a room (apps/server/src/balloon_crumbs_server/service.py, 710-1046).
use balloon_crumbs.Prelude.{ℕ, ◌+◌, String, Bool, not, ◌&&◌, none, List, str_eq, find}
use balloon_crumbs.Result.{Fault, relay_service_error, Result, ok, ◌>>=◌, ◌>>◌, reject, or_raise}
use balloon_crumbs.Models.{CrewRoom, CrewRoomDevice, Db}
use balloon_crumbs.Json.{Value, text, object, Fields, field, end}
use balloon_crumbs.Text.{compare_digest}
use balloon_crumbs.Text.Parts.{append}
use balloon_crumbs.Env.{Env, hours}
use balloon_crumbs.Crypto.{base64url, token_hash, encrypt_json}
use balloon_crumbs.Crew.Tables.{find_alias, active_at}
use balloon_crumbs.Crew.Records.{
  Profile, profile_json, crew_room_alias_digest, crew_room_device_digest, crew_room_aad,
  crew_room_device_aad,
}

-- What `secrets.token_bytes` and `os.urandom` give to one operation.
pub record CrewEntropy : Type 0 where
  pub room_bytes : List ℕ
  pub device_bytes : List ℕ
  pub invite_bytes : List ℕ
  pub alias_nonce : List ℕ
  pub operation_nonce : List ℕ
  pub profile_nonce : List ℕ

abbrev pub alias_json : String → Value
alias_json alias = object (field "alias" (text alias) end)

abbrev pub inactive_invitation : Fault
inactive_invitation = relay_service_error 404 "Crew room invitation is not active"

abbrev pub owner_stays : Fault
owner_stays = relay_service_error 409 "Transfer the crew room before revoking its owner"

-- `select(CrewRoom.id).where(CrewRoom.alias_digest == digest, CrewRoom.id != room_id)`
abbrev pub taken_by_another : List ℕ → String → CrewRoom → Bool
taken_by_another digest room_id r =
    compare_digest r.alias_digest digest && not (str_eq r.id room_id)

-- the row of a device that is in the room already, with the new credential and profile
abbrev pub renewed : CrewRoomDevice → CrewRoomDevice → CrewRoomDevice
renewed old new = record new { created_at = old.created_at }

module _ (env : Env) where
  unfoldable pub new_room_id : CrewEntropy → String
  new_room_id entropy = append "room_" (base64url env entropy.room_bytes)

  unfoldable pub new_device_credential : CrewEntropy → String
  new_device_credential entropy = append "crd1_" (base64url env entropy.device_bytes)

  unfoldable pub new_invite_token : CrewEntropy → String
  new_invite_token entropy = append "cri1_" (base64url env entropy.invite_bytes)

  -- a device with a new credential
  unfoldable pub new_device : CrewEntropy → String → List ℕ → Profile → ℕ → Result CrewRoomDevice
  new_device entropy room_id digest profile now = do
    credential_hash ← token_hash env (new_device_credential entropy)
    profile_text ←
        encrypt_json env entropy.profile_nonce (profile_json profile)
          (crew_room_device_aad room_id digest)
    ok (record {
      room_id = room_id;
      device_digest = digest;
      credential_hash = credential_hash;
      profile_ciphertext = profile_text;
      created_at = now;
      last_seen_at = now;
      revoked_at = none;
    })

  unfoldable pub new_room : CrewEntropy → List ℕ → String → Fields → ℕ → Result CrewRoom
  new_room entropy owner alias operation now = do
    alias_text ←
        encrypt_json env entropy.alias_nonce (alias_json alias)
          (crew_room_aad (new_room_id entropy) "alias")
    invite_hash ← token_hash env (new_invite_token entropy)
    operation_text ←
        encrypt_json env entropy.operation_nonce (object operation)
          (crew_room_aad (new_room_id entropy) "operation")
    ok (record {
      id = new_room_id entropy;
      alias_digest = crew_room_alias_digest env alias;
      alias_ciphertext = alias_text;
      owner_device_digest = owner;
      invite_token_hash = invite_hash;
      operation_ciphertext = operation_text;
      operation_generation = 1;
      operation_expires_at = now + hours env.settings.ride_retention_hours;
      created_at = now;
      updated_at = now;
    })

  -- the room that an invitation opens
  unfoldable pub invited : String → String → Db → Result CrewRoom
  invited alias invite_token db = do
    room ←
        or_raise (find_alias (crew_room_alias_digest env alias) db.crew_rooms) inactive_invitation
    hash ← token_hash env invite_token
    reject (not (compare_digest room.invite_token_hash hash)) inactive_invitation
    ok room

  unfoldable pub restarted : CrewEntropy → Fields → CrewRoom → ℕ → Result CrewRoom
  restarted entropy operation room now = do
    operation_text ←
        encrypt_json env entropy.operation_nonce (object operation)
          (crew_room_aad room.id "operation")
    invite_hash ← token_hash env (new_invite_token entropy)
    ok (record room {
      operation_ciphertext = operation_text;
      operation_generation = room.operation_generation + 1;
      operation_expires_at = now + hours env.settings.ride_retention_hours;
      invite_token_hash = invite_hash;
      updated_at = now;
    })

  unfoldable pub renamed : CrewEntropy → String → CrewRoom → ℕ → Result CrewRoom
  renamed entropy alias room now = do
    alias_text ←
        encrypt_json env entropy.alias_nonce (alias_json alias) (crew_room_aad room.id "alias")
    ok (record room {
      alias_digest = crew_room_alias_digest env alias;
      alias_ciphertext = alias_text;
      updated_at = now;
    })

  -- a device of the room that is not revoked
  unfoldable pub active_device : CrewRoom → List ℕ → Db → Result CrewRoomDevice
  active_device room digest db =
      or_raise (find (active_at room.id digest) db.crew_devices)
        (relay_service_error 404 "Crew room device is not active")

  unfoldable pub transferable : CrewRoom → String → Db → Result (List ℕ)
  unfolding active_device
  transferable room target_device_id db = do
    digest ← crew_room_device_digest env room.id target_device_id
    active_device room digest db
    ok digest

  unfoldable pub revocable : CrewRoom → String → Db → Result CrewRoomDevice
  unfolding active_device
  revocable room target_device_id db = do
    digest ← crew_room_device_digest env room.id target_device_id
    reject (compare_digest digest room.owner_device_digest) owner_stays
    active_device room digest db
