-- ===== src/Observer/Merge.antt =====
-- What `publish_observer_snapshot` of apps/server/src/balloon_crumbs_server/observer.py checks of a
-- request, and the document that it makes of the stored one and the request.
use balloon_crumbs.Prelude.{
  ℕ, String, Bool, true, false, not, Option, none, some, List, [], ◌∷◌, str_eq, ltb, leb, ◌+◌,
  if◌then◌else◌,
}
use balloon_crumbs.Json.{null, text, array, object, nil, Fields, end, field, get, as_object}
use balloon_crumbs.Result.{
  Fault, relay_service_error, Result, ok, ◌>>=◌, ◌>>◌, reject, or_raise, except_value_error,
}
use balloon_crumbs.Models.{ObserverGrant}
use balloon_crumbs.Text.{utf8}
use balloon_crumbs.Text.Parts.{append}
use balloon_crumbs.Env.{Env, hours, minutes}
use balloon_crumbs.Crypto.{encrypt_json, decrypt_json}
use balloon_crumbs.Observer.Snapshot.{
  Numbers, get_or, reduce_snapshot_precision, timestamp, recorded_at,
}

-- The instants that the request carries, those of the positions where there is one, and
-- `request.model_dump(mode="json")`, which pydantic computes.
pub record PublishRequest : Type 0 where
  pub scope : String
  pub snapshot_generated_at : ℕ
  pub status_updated_at : ℕ
  pub position_recorded_at : Option ℕ
  pub participants_recorded_at : List (Option ℕ)
  pub assistance_updated_at : ℕ
  pub assistance_reported_at : Option ℕ
  pub model_dump : Fields

-- from the future, or older than allowed
abbrev pub check_instant : ℕ → ℕ → String → String → Option ℕ → Result (Unit {0})
check_instant now age future old none = ok tt
check_instant now age future old (some at) = do
  reject (ltb (now + minutes 2) at) (relay_service_error 400 future)
  reject (ltb (at + age) now) (relay_service_error 400 old)

abbrev pub check_participants : ℕ → List (Option ℕ) → Result (Unit {0})
check_participants now [] = ok tt
check_participants now (at ∷ ats) = do
  check_instant now (hours 24) "Observer participant position is from the future"
      "Observer participant position is too old" at
  check_participants now ats

unfoldable pub check_snapshot : PublishRequest → ℕ → Result (Unit {0})
check_snapshot q now = do
  reject (ltb (now + minutes 2) q.snapshot_generated_at)
      (relay_service_error 400 "Observer snapshot is from the future")
  reject (ltb (now + minutes 2) q.status_updated_at)
      (relay_service_error 400 "Observer status is from the future")
  reject (ltb (now + minutes 2) q.assistance_updated_at)
      (relay_service_error 400 "Observer assistance status is from the future")
  check_instant now (hours 24) "Observer position is from the future" "Observer position is too old"
      q.position_recorded_at
  check_participants now q.participants_recorded_at
  check_instant now (hours 2) "Observer assistance status is from the future"
      "Observer assistance status is too old" q.assistance_reported_at

-- `current is None or incoming >= current`
abbrev pub is_newer : Option ℕ → ℕ → Bool
is_newer none at = true
is_newer (some current) at = leb current at

-- A rider's position that is given replaces one that is not newer.
abbrev pub is_newer_position : Option ℕ → Option ℕ → Bool
is_newer_position current none = false
is_newer_position current (some at) = is_newer current at

abbrev pub state_invalid : Fault
state_invalid = relay_service_error 500 "Stored observer state is invalid"

abbrev pub has_version : ℕ → Option ℕ → Bool
has_version at none = false
has_version at (some version) = leb at version

-- `merged`, from whether the incoming status, position and assistance are newer. `model_dump` has
-- every field.
unfoldable pub merged : ObserverGrant → Fields → Fields → Bool → Bool → Bool → Fields
merged g current incoming status position assistance =
    let group = str_eq g.scope "group" in
    field "scope" (text g.scope) (
      field "subjectName" (get "subjectName" incoming) (
        field "rideStatus"
          (if status
            then get "rideStatus" incoming
            else get_or "rideStatus" (text "waiting") current)
          (field "statusUpdatedAt" (get "statusUpdatedAt" (if status then incoming else current)) (
            field "position"
              (if group then null else get "position" (if position then incoming else current))
              (field "participants"
                (if group
                  then get "participants" incoming
                  else get_or "participants" (array nil) current)
                (field "route" (get "route" (if group then incoming else current)) (
                  field "assistanceUpdatedAt"
                    (get "assistanceUpdatedAt" (if assistance then incoming else current))
                    (field "assistance"
                      (if assistance
                        then get "assistance" incoming
                        else if group
                        then null
                        else get "assistance" current)
                      end))))))))

module _ (env : Env) where
  unfoldable pub snapshot_aad : String → List ℕ
  snapshot_aad grant_id = utf8 (append "observer-snapshot:" grant_id)

  -- the stored document
  unfoldable pub current_state : ObserverGrant → Option (List ℕ) → Result Fields
  current_state g none = ok end
  current_state g (some ciphertext) = do
    v ← except_value_error (decrypt_json env ciphertext (snapshot_aad g.id)) state_invalid
    or_raise (as_object v) state_invalid

  unfoldable pub merge : ObserverGrant → PublishRequest → Fields → Fields → Result Fields
  merge g q current incoming = do
    status_at ← timestamp env (get "statusUpdatedAt" current)
    position_at ← recorded_at env (get "position" current)
    assistance_at ← timestamp env (get "assistanceUpdatedAt" current)
    ok (
        merged g current incoming (is_newer status_at q.status_updated_at)
          (is_newer_position position_at q.position_recorded_at)
          (is_newer assistance_at q.assistance_updated_at))

  unfoldable pub incoming_of : Numbers → ObserverGrant → PublishRequest → Result Fields
  incoming_of numbers g q =
      if str_eq g.precision "reduced"
      then reduce_snapshot_precision numbers q.model_dump
      else ok q.model_dump

  -- the document that is stored for the grant
  unfoldable pub next_snapshot : Numbers → List ℕ → ObserverGrant → PublishRequest → Result (List ℕ)
  next_snapshot numbers nonce g q = do
    reject (not (str_eq g.scope q.scope))
        (relay_service_error 409 "Observer snapshot scope does not match grant")
    reject (has_version q.snapshot_generated_at g.snapshot_version_at)
        (relay_service_error 409 "Observer snapshot is older than current state")
    current ← current_state g g.snapshot_ciphertext
    incoming ← incoming_of numbers g q
    document ← merge g q current incoming
    encrypt_json env nonce (object document) (snapshot_aad g.id)
