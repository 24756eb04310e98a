-- ===== src/Crew/Records.antt =====
-- The checks on the arguments of the crew room operations, and the encrypted records of a room
-- (apps/server/src/balloon_crumbs_server/service.py, 1206-1371).
use balloon_crumbs.Prelude.{
  ℕ, String, Bool, true, false, not, ◌&&◌, Option, none, some, List, [], ◌∷◌, str_eq, ltb, leb,
  if◌then◌else◌, all, contains,
}
use balloon_crumbs.Result.{
  Fault, relay_service_error, Result, ok, ◌>>=◌, ◌>>◌, reject, or_raise, except_value_error,
}
use balloon_crumbs.Json.{
  Value, null, text, object, Fields, end, field, get, keys, as_text, as_object, is_null,
}
use balloon_crumbs.Models.{CrewRoom, CrewRoomDevice}
use balloon_crumbs.Text.{
  text_len, utf8, compare_digest, is_identifier, is_base64url_text, is_crew_room_alias,
}
use balloon_crumbs.Text.Parts.{append, format, hex}
use balloon_crumbs.Text.Strip.{strip}
use balloon_crumbs.Env.{Env}
use balloon_crumbs.Crypto.{blind_index, decrypt_json}
use balloon_crumbs.JoinCode.Records.{has_length, validate_join_code, validate_join_credential}

abbrev required_fields : List String
required_fields = "rideId" ∷ "rideCode" ∷ "inviteSecret" ∷ "resolveToken" ∷ []

abbrev allowed_fields : List String
allowed_fields = "authorityRootPublicKey" ∷ required_fields

-- `required.issubset(value) and set(value).issubset(allowed)`
unfoldable pub has_operation_fields : Fields → Bool
has_operation_fields fs =
    all (λ k. contains str_eq k (keys fs)) required_fields
    && all (λ k. contains str_eq k allowed_fields) (keys fs)

abbrev is_some_text : Value → Bool
is_some_text (text _) = true
is_some_text _ = false

-- `all(isinstance(value.get(field), str) for field in required_fields)`
unfoldable pub has_operation_texts : Fields → Bool
has_operation_texts fs = all (λ k. is_some_text (get k fs)) required_fields

-- a root key that is missing or well formed
abbrev pub accepts_root : Value → Bool
accepts_root null = true
accepts_root (text key) = is_base64url_text 43 key
accepts_root _ = false

-- The required fields in a fixed order; Python's order of a set differs from run to run.
unfoldable pub clean_operation : Fields → Fields
clean_operation fs = field "rideId" (get "rideId" fs) (
    field "rideCode" (get "rideCode" fs) (
      field "inviteSecret" (get "inviteSecret" fs) (
        field "resolveToken" (get "resolveToken" fs) (
          if is_null (get "authorityRootPublicKey" fs)
          then end
          else field "authorityRootPublicKey" (get "authorityRootPublicKey" fs) end))))

-- a text field that is known to be one
abbrev pub text_of : Value → String
text_of (text s) = s
text_of _ = ""

abbrev invalid_room : Fault
invalid_room = relay_service_error 500 "Crew room record is invalid"

abbrev invalid_device : Fault
invalid_device = relay_service_error 500 "Crew room device record is invalid"

unfoldable pub crew_room_aad : String → String → List ℕ
crew_room_aad room_id value = utf8 (format ("crew-room:" ∷ room_id ∷ ":" ∷ value ∷ []))

unfoldable pub crew_room_device_aad : String → List ℕ → List ℕ
crew_room_device_aad room_id digest =
    utf8 (format ("crew-room:" ∷ room_id ∷ ":device:" ∷ hex digest ∷ []))

-- `{"deviceId": ..., "displayName": ...}`
pub record Profile : Type 0 where
  pub device_id : String
  pub display_name : String

abbrev pub profile_json : Profile → Value
profile_json p =
    object (field "deviceId" (text p.device_id) (field "displayName" (text p.display_name) end))

unfoldable pub validate_crew_room_profile : String → String → Result Profile
validate_crew_room_profile device_id display_name = do
  reject (not (is_identifier device_id))
      (relay_service_error 400 "Crew room device identity is invalid")
  reject (not (leb 1 (text_len (strip display_name)) && leb (text_len (strip display_name)) 80))
      (relay_service_error 400 "Crew room device name is invalid")
  ok (record { device_id = device_id; display_name = strip display_name })

-- what the operations that return a room answer
pub record CrewRoomResponse : Type 0 where
  pub room_id : String
  pub alias : String
  pub device_credential : String
  pub invite_token : Option String
  pub operation_generation : ℕ
  pub operation : Option Fields
  pub operation_expires_at : ℕ
  pub owner : Bool

module _ (env : Env) where
  unfoldable pub normalise_crew_room_alias : String → Result String
  normalise_crew_room_alias alias =
      let normalised = env.upper (strip alias) in
      reject (not (is_crew_room_alias normalised))
        (relay_service_error 400 "Crew room alias must be 5-12 letters or numbers")
      >> ok normalised

  unfoldable pub validate_crew_room_operation : Fields → String → Result Fields
  validate_crew_room_operation operation bearer_token = do
    reject (not (has_operation_fields operation && has_operation_texts operation))
        (relay_service_error 400 "Crew room operation is invalid")
    reject (not (accepts_root (get "authorityRootPublicKey" operation)))
        (relay_service_error 400 "Crew room device authority is invalid")
    validate_join_code env (text_of (get "rideCode" operation))
    validate_join_credential env (text_of (get "rideId" operation))
        (text_of (get "inviteSecret" operation)) bearer_token
    reject (not (has_length 128 (text_of (get "resolveToken" operation))))
        (relay_service_error 400 "Invalid ride credential")
    ok (clean_operation operation)

  unfoldable pub crew_room_alias_digest : String → List ℕ
  crew_room_alias_digest alias = blind_index env alias "crew-room-alias-v1"

  unfoldable pub crew_room_device_digest : String → String → Result (List ℕ)
  crew_room_device_digest room_id device_id =
      reject (not (is_identifier device_id))
        (relay_service_error 400 "Crew room device identity is invalid")
      >> ok (blind_index env device_id (append "crew-room-device-v1:" room_id))

  unfoldable pub decrypt_crew_room_operation : CrewRoom → Result Fields
  decrypt_crew_room_operation room = do
    value ←
        except_value_error
          (decrypt_json env room.operation_ciphertext (crew_room_aad room.id "operation"))
          invalid_room
    fs ← or_raise (as_object value) invalid_room
    reject (not (has_operation_fields fs)) invalid_room
    reject (not (has_operation_texts fs)) invalid_room
    reject (not (accepts_root (get "authorityRootPublicKey" fs))) invalid_room
    ok fs

  unfoldable pub decrypt_crew_room_profile : CrewRoomDevice → Result Profile
  decrypt_crew_room_profile device = do
    value ←
        except_value_error
          (decrypt_json env device.profile_ciphertext
            (crew_room_device_aad device.room_id device.device_digest))
          invalid_device
    fs ← or_raise (as_object value) invalid_device
    device_id ← or_raise (as_text (get "deviceId" fs)) invalid_device
    display_name ← or_raise (as_text (get "displayName" fs)) invalid_device
    ok (record { device_id = device_id; display_name = display_name })

  -- The operation is read only while it is active.
  unfoldable pub active_operation : CrewRoom → ℕ → Result (Option Fields)
  unfolding decrypt_crew_room_operation
  active_operation room now =
      if ltb now room.operation_expires_at
      then (decrypt_crew_room_operation room >>= λ fs. ok (some fs))
      else ok none

  unfoldable pub crew_room_response :
      CrewRoom → String → Option String → List ℕ → ℕ → Result CrewRoomResponse
  unfolding active_operation
  crew_room_response room device_credential invite_token device_digest now = do
    value ←
        except_value_error (decrypt_json env room.alias_ciphertext (crew_room_aad room.id "alias"))
          invalid_room
    fs ← or_raise (as_object value) invalid_room
    alias ← or_raise (as_text (get "alias" fs)) invalid_room
    operation ← active_operation room now
    ok (record {
      room_id = room.id;
      alias = alias;
      device_credential = device_credential;
      invite_token = invite_token;
      operation_generation = room.operation_generation;
      operation = operation;
      operation_expires_at = room.operation_expires_at;
      owner = compare_digest room.owner_device_digest device_digest;
    })
