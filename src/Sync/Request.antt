-- ===== src/Sync/Request.antt =====
-- The checks of a synchronisation request that touch no state (service.py, `_validate_identity` and
-- the first part of `synchronize`).
use balloon_crumbs.Prelude.{
  ℕ, String, Bool, false, not, ◌||◌, Option, List, [], ◌∷◌, map, str_eq, ltb, if◌then◌else◌, length,
  contains,
}
use balloon_crumbs.Result.{
  relay_service_error, Result, ok, err, ◌>>=◌, ◌>>◌, reject, except_value_error,
}
use balloon_crumbs.Json.{Fields}
use balloon_crumbs.Text.{is_identifier, is_token, is_idempotency_key}
use balloon_crumbs.Env.{Env}
use balloon_crumbs.Crypto.{decode_cursor}
use balloon_crumbs.Sync.Event.{ValidatedEvent, validate_event}

-- `SyncRequest`, with the headers and the hash that the endpoint passes on
pub record SyncRequest : Type 0 where
  pub ride_id : String
  pub bearer_token : String
  pub idempotency_key : String
  pub request_hash : List ℕ
  pub device_header : String
  pub device_id : String
  pub cursor : Option String
  pub events : List Fields

unfoldable pub validate_identity : String → String → String → Result (Unit {0})
validate_identity ride_id body_device header_device =
    if not (is_identifier ride_id)
    then err (relay_service_error 400 "Ride identity is invalid")
    else reject (not (is_identifier body_device) || not (str_eq body_device header_device))
        (relay_service_error 400 "Device identity headers do not match")

-- `len({event.event_id for event in events}) != len(events)`
abbrev pub repeats : List String → Bool
repeats [] = false
repeats (x ∷ xs) = contains str_eq x xs || repeats xs

abbrev pub event_ids : List ValidatedEvent → List String
event_ids events = map (λ e. e.event_id) events

module _ (env : Env) where
  unfoldable pub validate_events : List Fields → String → ℕ → Result (List ValidatedEvent)
  validate_events [] ride_id now = ok []
  validate_events (value ∷ values) ride_id now = do
    event ← validate_event env value ride_id now
    events ← validate_events values ride_id now
    ok (event ∷ events)

  -- the sequence of the cursor and the validated events
  unfoldable pub check_request : SyncRequest → ℕ → Result (ℕ × List ValidatedEvent)
  unfolding validate_identity validate_events
  check_request q now = do
    validate_identity q.ride_id q.device_id q.device_header
    reject (not (is_token q.bearer_token)) (relay_service_error 401 "Ride credential rejected")
    reject (not (is_idempotency_key q.idempotency_key))
        (relay_service_error 400 "Invalid idempotency key")
    reject (ltb env.settings.maximum_upload_events (length q.events))
        (relay_service_error 400 "Upload event limit exceeded")
    cursor_sequence ←
        except_value_error (decode_cursor env q.ride_id q.cursor)
          (relay_service_error 400 "Invalid cursor")
    events ← validate_events q.events q.ride_id now
    reject (repeats (event_ids events))
        (relay_service_error 400 "A batch cannot repeat an event ID")
    ok (cursor_sequence, events)
