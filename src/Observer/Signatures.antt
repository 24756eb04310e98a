-- ===== src/Observer/Signatures.antt =====
-- Signatures and times in stored events: `_verify_signature`, `_verify_event_signature`,
-- `_event_time` and `_device_id_matches` of apps/server/src/balloon_crumbs_server/observer.py.
use balloon_crumbs.Prelude.{
  ℕ, String, Bool, false, ◌&&◌, Option, none, some, List, [], ◌∷◌, ◌==◌, length,
}
use balloon_crumbs.Result.{value_error, overflow_error, Result, ok, err}
use balloon_crumbs.Json.{Value, text, object, Fields, end, field, get, as_text}
use balloon_crumbs.Text.{utf8}
use balloon_crumbs.Text.Parts.{append, format}
use balloon_crumbs.Env.{Env, Parsed, aware, naive, unrepresentable}
use balloon_crumbs.Crypto.{base64url, compare_text}
use balloon_crumbs.Sync.Event.{replace_z}

-- the fields that are signed, in the order of the source
abbrev signed_keys : List String
signed_keys =
    "schemaVersion" ∷ "id" ∷ "rideId" ∷ "deviceId" ∷ "type" ∷ "priority" ∷ "createdAt" ∷ "expiresAt"
    ∷ "payload" ∷ "devicePublicKey" ∷ []

-- `{key: body.get(key) for key in keys}`
abbrev select_keys : List String → Fields → Fields
select_keys [] body = end
select_keys (k ∷ ks) body = field k (get k body) (select_keys ks body)

-- an aware time in UTC; `astimezone` raises `OverflowError` where it is out of range
abbrev pub event_instant : Option Parsed → Result (Option ℕ)
event_instant none = ok none
event_instant (some (naive t)) = ok none
event_instant (some unrepresentable) = err overflow_error
event_instant (some (aware t)) = ok (some t)

module _ (env : Env) where
  unfoldable pub is_signed_by : String → String → String → Bool
  is_signed_by public_key signature challenge =
      elim (env.urlsafe_b64decode (append public_key "=")) [
        | none ↦ false
        | some key ↦ elim (env.urlsafe_b64decode (append signature "==")) [
          | none ↦ false
          | some signed ↦
              length key == 32 && length signed == 64 && env.verify key signed (utf8 challenge)
        ]
      ]

  unfoldable pub verify_event_signature : Fields → Result Bool
  unfolding is_signed_by
  verify_event_signature body = elim (as_text (get "deviceSignature" body)) [
    | none ↦ ok false
    | some signature ↦ elim (as_text (get "devicePublicKey" body)) [
      | none ↦ ok false
      | some public_key ↦ elim (env.dumps_sorted (object (select_keys signed_keys body))) [
        | none ↦ err value_error
        | some canonical ↦ ok (is_signed_by public_key signature canonical)
      ]
    ]
  ]

  unfoldable pub event_time : Value → Result (Option ℕ)
  event_time (text s) = event_instant (env.fromisoformat (replace_z s))
  event_time _ = ok none

  unfoldable pub device_id_matches : String → String → String → Result Bool
  device_id_matches ride_id device_id public_key = compare_text device_id (
      append "bcd1_" (
        base64url env (
          env.sha256
            (utf8 (format ("balloon-crumbs-device-id-v1\n" ∷ ride_id ∷ "\n" ∷ public_key ∷ []))))))
