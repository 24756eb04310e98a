-- ===== src/Observer/Request.antt =====
-- Who may create a grant: `_authenticated_ride`, `_verify_group_pilot_authorization` and
-- `_group_grant_challenge` of apps/server/src/balloon_crumbs_server/observer.py.
use balloon_crumbs.Prelude.{
  ℕ, ◌+◌, ◌*◌, String, Bool, true, false, not, ◌&&◌, ◌||◌, Option, none, some, str_eq, ltb,
  if◌then◌else◌, leb,
}
use balloon_crumbs.Result.{
  Fault, relay_service_error, value_error, Result, ok, err, ◌>>=◌, ◌>>◌, reject, or_raise,
}
use balloon_crumbs.Json.{Value, natural, text, object, end, field}
use balloon_crumbs.Models.{Ride, Db, find_ride}
use Prim.Native.Char.{code}
use balloon_crumbs.Text.{is_identifier, is_token, compare_digest}
use balloon_crumbs.Text.Parts.{append}
use balloon_crumbs.Text.Strip.{is_space}
use balloon_crumbs.Env.{Env, minutes, seconds}
use balloon_crumbs.Crypto.{token_hash}
use balloon_crumbs.Observer.Signatures.{is_signed_by}
use balloon_crumbs.Observer.Pilot.{current_pilot_authority}

pub record PilotAuthorization : Type 0 where
  pub device_id : String
  pub device_public_key : String
  pub signed_at_milliseconds : ℕ
  pub signature : String

pub record CreateGrantRequest : Type 0 where
  pub label : String
  pub duration_minutes : ℕ
  pub scope : String
  pub precision : String
  pub pilot_authorization : Option PilotAuthorization

-- The words of a text with one space between them: whether a word stands before, and whether a
-- space is due before the next.
unfoldable pub squeeze : Bool → Bool → String → String
squeeze started due String.[] = ""
squeeze started due (String.◌∷◌ c s) =
    let after_space = squeeze started true s in
    let after_word = squeeze true false s in
    if is_space (code c)
    then after_space
    else if started && due
    then append " " (String.◌∷◌ c after_word)
    else String.◌∷◌ c after_word

-- `" ".join(label.split())`
unfoldable pub clean_label : String → String
unfolding squeeze
clean_label label = squeeze false false label

abbrev pub rejected : Fault
rejected = relay_service_error 403 "Pilot authorization was rejected"

-- `pilot != (device_id, public_key)`
abbrev pub is_pilot : String → String → Option (String × String) → Bool
is_pilot id key none = false
is_pilot id key (some (d, k)) = str_eq d id && str_eq k key

module _ (env : Env) where
  unfoldable pub authenticated_ride : String → String → Db → Result Ride
  authenticated_ride ride_id bearer_token db = do
    reject (not (is_identifier ride_id)) (relay_service_error 400 "Ride identity is invalid")
    reject (not (is_token bearer_token)) (relay_service_error 403 "Ride credential rejected")
    ride ←
        or_raise (find_ride ride_id db.rides)
          (relay_service_error 404 "Ride is not ready for observer access")
    hash ← token_hash env bearer_token
    reject (not (compare_digest ride.token_hash hash))
        (relay_service_error 403 "Ride credential rejected")
    ok ride

  -- the body that the pilot signs, whose keys are in order
  unfoldable pub grant_body : String → PilotAuthorization → CreateGrantRequest → Value
  grant_body ride_id proof q = object (
      field "deviceId" (text proof.device_id) (
        field "devicePublicKey" (text proof.device_public_key) (
          field "durationMinutes" (natural q.duration_minutes) (
            field "label" (text (clean_label q.label)) (
              field "precision" (text q.precision) (
                field "rideId" (text ride_id) (
                  field "scope" (text "group")
                    (field "signedAtMilliseconds" (natural proof.signed_at_milliseconds) end))))))))

  -- `datetime.fromtimestamp` raises for an instant after the year 9999, and nothing catches it.
  unfoldable pub check_pilot :
      Ride → PilotAuthorization → String → CreateGrantRequest → ℕ → Db → Result (Unit {0})
  unfolding grant_body
  check_pilot ride proof root_public_key q now db = do
    let signed_at = proof.signed_at_milliseconds * 1000
    reject (leb (seconds 253402300800) signed_at) value_error
    reject (ltb (signed_at + minutes 5) now || ltb (now + minutes 2) signed_at)
        (relay_service_error 400 "Pilot authorization is outside its time window")
    pilot ← current_pilot_authority env ride.id root_public_key db.events
    reject (not (is_pilot proof.device_id proof.device_public_key pilot)) rejected
    dumped ← or_raise (env.dumps_sorted (grant_body ride.id proof q)) value_error
    reject
        (not (
          is_signed_by env proof.device_public_key proof.signature
            (append "balloon-crumbs-observer-group-grant-v1\n" dumped)))
        rejected

  unfoldable pub verify_group_pilot_authorization :
      Ride → CreateGrantRequest → ℕ → Db → Result (Unit {0})
  unfolding check_pilot
  verify_group_pilot_authorization ride q now db = elim q.pilot_authorization [
    | none ↦ err (relay_service_error 403 "Pilot authorization is required")
    | some proof ↦ elim ride.authority_root_public_key [
      | none ↦ err (relay_service_error 403 "Pilot authorization is required")
      | some root ↦ check_pilot ride proof root q now db
    ]
  ]
