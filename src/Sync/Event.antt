-- ===== src/Sync/Event.antt =====
-- Validation of an uploaded event: `_validate_event`, `_parse_timestamp` and `_validate_json_shape`
-- of apps/server/src/balloon_crumbs_server/service.py.
pub mod Shape
pub mod Sound
use Prim.Native.Char.{code}
use balloon_crumbs.Prelude.{
  ◌≡◌, refl, sym, ap, ◌∙◌, ◌≢◌, ◌↔◌, ◌⊎◌, inl, inr, ℕ, zero, suc, ◌+◌, ◌-◌, ◌*◌, ◌/◌, ◌%◌, ◌^◌, ◌≤◌,
  ◌<◌, min, max, String, Bool, true, false, not, ◌&&◌, ◌||◌, Option, none, some, List, [], ◌∷◌,
  ◌++◌, map, arith, str_eq, eq_iff, ltb, leb, ◌==◌, if◌then◌else◌, ==_iff, ltb→lt, leb→le,
  Bool-cases, Option-cases, is_some, length, take, drop, keep, find, all, any, sum_of, last_or,
  length-append, sum_of-append, sum_of-keep, length-keep-le, keep-append, count_of, contains,
}
use balloon_crumbs.Result.{
  Fault, relay_service_error, value_error, type_error, overflow_error, invalid_tag, integrity_error,
  Result, ok, err, ◌>>=◌, ◌>>◌, reject, or_raise, except_value_error, >>=-eq-ok,
}
use balloon_crumbs.Json.{
  Value, null, boolean, natural, negative, double, text, array, object, Items, nil, cons, Fields,
  end, field, is_finite, get, keys, length_items, as_text, as_object, is_boolean, is_null, is_text,
  in_texts, equals_one, equals_two, in_versions,
}
use balloon_crumbs.Text.{text_len, utf8, is_identifier, is_signature, is_base64url_text}
use balloon_crumbs.Text.Parts.{append, format}
use balloon_crumbs.Env.{Env, Parsed, aware, naive, unrepresentable, minutes}
use Shape.{bad_request, validate_json_shape}

abbrev pub event_types : List String
event_types =
    "rideCreated" ∷ "riderJoined" ∷ "riderLeft" ∷ "roleChanged" ∷ "rideStarted" ∷ "statusMessage"
    ∷ "riderLocationUpdated" ∷ "hazardReported" ∷ "hazardCleared" ∷ "routeRevisionChunk"
    ∷ "routeRevisionPublished" ∷ "routeCleared" ∷ "ridePaused" ∷ "rideResumed" ∷ "rideEnded"
    ∷ "iceInfoShared" ∷ "iceInfoViewed" ∷ "riderContactShared" ∷ "craftRegistered"
    ∷ "deviceAttachedToCraft" ∷ "craftPrimaryDeviceNominated" ∷ "craftChaseAssigned"
    ∷ "landingAreaNoted" ∷ "windContextNoted" ∷ "operationalBoundaryUpserted"
    ∷ "operationalBoundaryRemoved" ∷ "operationalBoundaryAlerted" ∷ "chaseGuidanceTargetSelected"
    ∷ "pilotHandoverOffered" ∷ "pilotHandoverAccepted" ∷ "rideReopened" ∷ "flightStartedByCrew"
    ∷ "flightLanded" ∷ "flightLandingRetracted" ∷ "deviceAuthorityRevoked"
    ∷ "deviceAuthorityRotated" ∷ []

abbrev pub priorities : List String
priorities = "routine" ∷ "important" ∷ "critical" ∷ []

-- `EVENT_FIELDS - {"devicePublicKey", "deviceSignature"}`
abbrev pub unsigned_fields : List String
unsigned_fields =
    "schemaVersion" ∷ "id" ∷ "rideId" ∷ "deviceId" ∷ "type" ∷ "priority" ∷ "createdAt" ∷ "expiresAt"
    ∷ "payload" ∷ "signature" ∷ "acknowledged" ∷ []

abbrev pub event_fields : List String
event_fields = "devicePublicKey" ∷ "deviceSignature" ∷ unsigned_fields

pub record ValidatedEvent : Type 0 where
  pub body : Fields
  pub encoded : List ℕ
  pub body_hash : List ℕ
  pub event_id : String
  pub device_id : String
  pub event_type : String
  pub created_at : ℕ
  pub client_expires_at : Option ℕ

-- equality of two sets of texts
unfoldable pub same_set : List String → List String → Bool
same_set xs ys = all (λ x. contains str_eq x ys) xs && all (λ y. contains str_eq y xs) ys

-- `isinstance(value, str) and pattern.fullmatch(value)`
unfoldable pub matched : (String → Bool) → Value → String → Result String
matched pattern (text s) message = if pattern s then ok s else err (relay_service_error 400 message)
matched pattern _ message = err (relay_service_error 400 message)

-- the texts in which `Z` stands for `+00:00`
unfoldable pub replace_z : String → String
replace_z String.[] = ""
replace_z (String.◌∷◌ c s) =
    if code c == b'Z' then append "+00:00" (replace_z s) else String.◌∷◌ c (replace_z s)

-- The result of `datetime.fromisoformat`, in UTC; `astimezone` raises `OverflowError` where the
-- instant in UTC is out of range.
unfoldable pub to_utc : Option Parsed → String → Result ℕ
to_utc none name = bad_request (format ("Event " ∷ name ∷ " is invalid" ∷ []))
to_utc (some (naive t)) name =
    bad_request (format ("Event " ∷ name ∷ " must include a timezone" ∷ []))
to_utc (some unrepresentable) name = err overflow_error
to_utc (some (aware t)) name = ok t

-- the two checks of device authority that only schema version 2 makes
unfoldable pub validate_authority : Fields → Result (Unit {0})
unfolding matched
validate_authority value = do
  matched (is_base64url_text 43) (get "devicePublicKey" value) "Event device authority is invalid"
  matched (is_base64url_text 86) (get "deviceSignature" value) "Event device authority is invalid"
  ok tt

-- the membership tests of `type` and `priority`, the second made only if the first holds
unfoldable pub validate_kind : Fields → Result (Unit {0})
validate_kind value = do
  known ← in_texts (get "type" value) event_types
  reject (not known) (relay_service_error 400 "Event type or priority is invalid")
  ranked ← in_texts (get "priority" value) priorities
  reject (not ranked) (relay_service_error 400 "Event type or priority is invalid")

-- the checks before the timestamps, with the identities and the type of the event
unfoldable pub validate_head : Fields → String → Result (String × String × String)
unfolding matched validate_kind validate_authority
validate_head value ride_id = do
  let schema_version = get "schemaVersion" value
  let expected_fields = if equals_two schema_version then event_fields else unsigned_fields
  reject (not (same_set (keys value) expected_fields))
      (relay_service_error 400 "Event fields are invalid")
  versioned ← in_versions schema_version
  reject (not versioned || not (is_text ride_id (get "rideId" value)))
      (relay_service_error 400 "Event is invalid for this ride")
  event_id ← matched is_identifier (get "id" value) "Event ID is invalid"
  device_id ← matched is_identifier (get "deviceId" value) "Event device is invalid"
  validate_kind value
  event_type ← or_raise (as_text (get "type" value)) type_error
  or_raise (as_object (get "payload" value))
      (relay_service_error 400 "Event payload must be an object")
  reject (not (is_boolean (get "acknowledged" value)))
      (relay_service_error 400 "Event acknowledgement flag is invalid")
  matched is_signature (get "signature" value) "Event signature is invalid"
  if equals_two schema_version then validate_authority value else ok tt
  ok (event_id, device_id, event_type)

module _ (env : Env) where
  unfoldable pub parse_timestamp : Value → String → Result ℕ
  unfolding to_utc
  parse_timestamp (text s) name =
      if ltb 40 (text_len s)
      then bad_request (format ("Event " ∷ name ∷ " is invalid" ∷ []))
      else to_utc (env.fromisoformat (replace_z s)) name
  parse_timestamp _ name = bad_request (format ("Event " ∷ name ∷ " is invalid" ∷ []))

  unfoldable pub parse_expiry : Value → Result (Option ℕ)
  unfolding parse_timestamp
  parse_expiry null = ok none
  parse_expiry v = do t ← parse_timestamp v "expiresAt"; ok (some t)

  unfoldable pub validate_event : Fields → String → ℕ → Result ValidatedEvent
  unfolding parse_expiry validate_head
  validate_event value ride_id now = do
    identified ← validate_head value ride_id
    let (event_id, device_id, event_type) = identified
    created_at ← parse_timestamp (get "createdAt" value) "createdAt"
    reject (ltb (now + minutes 10) created_at)
        (relay_service_error 400 "Event creation time is too far in the future")
    expires_at ← parse_expiry (get "expiresAt" value)
    validate_json_shape (object value) 0
    dumped ← or_raise (env.dumps_sorted (object value)) value_error
    let encoded = utf8 dumped
    reject (ltb env.settings.maximum_event_bytes (length encoded))
        (relay_service_error 413 (append "Event exceeds size limit: " event_id))
    ok (record {
      body = value;
      encoded = encoded;
      body_hash = env.sha256 encoded;
      event_id = event_id;
      device_id = device_id;
      event_type = event_type;
      created_at = created_at;
      client_expires_at = expires_at;
    })
