-- ===== src/Presence/Authority.antt =====
-- Device authority: `_verify_presence_authority` and `_ride_uses_device_authority` of
-- apps/server/src/balloon_crumbs_server/service.py.
use balloon_crumbs.Prelude.{
  ℕ, ◌+◌, ◌*◌, String, Bool, false, not, ◌&&◌, ◌||◌, Option, none, some, List, str_eq, ltb, leb,
  ◌==◌, length, find,
}
use balloon_crumbs.Result.{
  relay_service_error, value_error, Result, ok, err, ◌>>=◌, ◌>>◌, reject, or_raise,
}
use balloon_crumbs.Json.{Value, null, boolean, natural, text, object, end, field, get, equals_two}
use balloon_crumbs.Models.{StoredEvent}
use balloon_crumbs.Prelude.Order.{order_by}
use balloon_crumbs.Text.{utf8}
use balloon_crumbs.Text.Parts.{append}
use balloon_crumbs.Env.{Env, minutes, seconds}
use balloon_crumbs.Crypto.{decrypt_json}
use balloon_crumbs.Sync.Store.{event_of, event_aad}

-- the fields of a request that prove which device sent it
pub record Proof : Type 0 where
  pub authority_version : Option ℕ
  pub signed_at_milliseconds : Option ℕ
  pub public_key : Option String
  pub signature : Option String

-- the body that a device signs
abbrev pub challenge_body : String → String → ℕ → Bool → Option Value → Value
challenge_body ride_id rider_id signed_at clear position = object (
    field "rideId" (text ride_id) (
      field "riderId" (text rider_id) (
        field "signedAtMilliseconds" (natural signed_at) (
          field "clear" (boolean clear)
            (field "position" (elim position [ none ↦ null | some v ↦ v ]) end)))))

module _ (env : Env) where
  -- the `try` block: keys and signatures of the wrong length and bad signatures are all rejected
  unfoldable pub verify_signature : String → String → List ℕ → Result (Unit {0})
  verify_signature public_key signature challenge =
      elim (env.urlsafe_b64decode (append public_key "=")) [
        | none ↦ err (relay_service_error 403 "Device authority proof rejected")
        | some key ↦ elim (env.urlsafe_b64decode (append signature "==")) [
          | none ↦ err (relay_service_error 403 "Device authority proof rejected")
          | some signed ↦
              reject
                (not (length key == 32)
                  || not (length signed == 64)
                  || not (env.verify key signed challenge))
                (relay_service_error 403 "Device authority proof rejected")
        ]
      ]

  unfoldable pub verify_presence_authority :
      String → String → Option Value → Bool → Proof → ℕ → Result (Unit {0})
  unfolding verify_signature
  verify_presence_authority ride_id rider_id position clear proof now = do
    version ←
        or_raise proof.authority_version (relay_service_error 403 "Device authority proof rejected")
    reject (not (version == 1)) (relay_service_error 403 "Device authority proof rejected")
    milliseconds ←
        or_raise proof.signed_at_milliseconds
          (relay_service_error 403 "Device authority proof rejected")
    public_key ←
        or_raise proof.public_key (relay_service_error 403 "Device authority proof rejected")
    signature ← or_raise proof.signature (relay_service_error 403 "Device authority proof rejected")
    let signed_at = milliseconds * 1000
    -- `datetime.fromtimestamp` raises after the year 9999.
    reject (leb (seconds 253402300800) signed_at) value_error
    reject (ltb (signed_at + minutes 5) now || ltb (now + minutes 2) signed_at)
        (relay_service_error 400 "Device authority proof is outside its time window")
    dumped ←
        or_raise (env.dumps_sorted (challenge_body ride_id rider_id milliseconds clear position))
          value_error
    verify_signature public_key signature (utf8 (append "balloon-crumbs-live-presence-v1\n" dumped))

  abbrev is_creation : String → StoredEvent → Bool
  is_creation ride_id e = event_of ride_id e && str_eq e.event_type "rideCreated"

  -- `isinstance(body, dict) and body.get("schemaVersion") == 2`
  abbrev is_version_two : Value → Bool
  is_version_two (object fs) = equals_two (get "schemaVersion" fs)
  is_version_two _ = false

  -- A body that is no JSON counts as no authority; one that does not open raises.
  unfoldable pub ride_uses_device_authority : String → List StoredEvent → Result Bool
  ride_uses_device_authority ride_id events =
      elim (find (is_creation ride_id) (order_by (λ e. e.sequence) events)) [
        | none ↦ ok false
        | some row ↦ elim (decrypt_json env row.body_ciphertext (event_aad ride_id row.event_id)) [
          | ok body ↦ ok (is_version_two body)
          | err value_error ↦ ok false
          | err e ↦ err e
        ]
      ]
