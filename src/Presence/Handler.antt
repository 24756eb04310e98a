-- ===== src/Presence/Handler.antt =====
-- Publishing, clearing and reading live positions: `synchronize_pre_start_presence` of
-- apps/server/src/balloon_crumbs_server/service.py.
use balloon_crumbs.Prelude.{
  ℕ, ◌+◌, String, Bool, true, false, not, ◌&&◌, Option, none, some, List, [], ◌∷◌, ◌++◌, str_eq,
  leb, if◌then◌else◌, is_some, keep, find, count_of,
}
use balloon_crumbs.Result.{relay_service_error, Result, ok, err}
use balloon_crumbs.Effect.{Exec, pure, lift, transaction, ◌>>=◌, ◌>>◌, modify, raise_if}
use balloon_crumbs.Json.{Value, null, boolean, natural, text, object, Fields, end, field}
use balloon_crumbs.Models.{PreStartPosition, Db}
use balloon_crumbs.Prelude.Order.{sort_by}
use balloon_crumbs.Text.{utf8}
use balloon_crumbs.Text.Parts.{format}
use balloon_crumbs.Env.{Env, seconds}
use balloon_crumbs.Crypto.{encrypt_json, decrypt_json}
use balloon_crumbs.Presence.Request.{PresenceSyncRequest, check_presence, check_ride}
use balloon_crumbs.Presence.Roster.{
  Phase, started, ended, ride_presence_phase, Member, presence_members,
}

pub record PresenceSyncResponse : Type 0 where
  pub ttl_seconds : ℕ
  pub positions : List Fields
  pub phase : Phase
  pub members : List Member
  pub server_time : String

unfoldable pub pre_start_presence_aad : String → String → List ℕ
pre_start_presence_aad ride_id rider_id =
    utf8 (format ("pre-start-presence-v1\n" ∷ ride_id ∷ "\n" ∷ rider_id ∷ []))

abbrev pub position_of : String → PreStartPosition → Bool
position_of ride_id p = str_eq p.ride_id ride_id

abbrev pub position_at : String → String → PreStartPosition → Bool
position_at ride_id rider_id p = str_eq p.ride_id ride_id && str_eq p.rider_id rider_id

-- `{**fields, key: value}`
abbrev pub put_field : String → Value → Fields → Fields
put_field key value end = field key value end
put_field key value (field k v fs) =
    if str_eq k key then field k value fs else field k v (put_field key value fs)

abbrev or_null : {A : Type 0} → (A → Value) → Option A → Value
or_null f none = null
or_null f (some a) = f a

-- the existing row is changed in place
unfoldable pub update_position : PreStartPosition → List PreStartPosition → List PreStartPosition
update_position row [] = []
update_position row (p ∷ ps) =
    if position_at row.ride_id row.rider_id p then row ∷ ps else p ∷ update_position row ps

unfoldable pub save_position :
    Bool → PreStartPosition → List PreStartPosition → List PreStartPosition
unfolding update_position
save_position exists row ps = if exists then update_position row ps else ps ++ row ∷ []

-- `delete(PreStartPosition).where(ride_id == ..., expires_at <= now)`
unfoldable pub expire_positions : String → ℕ → Db → Db
expire_positions ride_id now db = record db {
  positions = keep (λ p. not (position_of ride_id p && leb p.expires_at now)) db.positions;
}

unfoldable pub clear_positions : String → Db → Db
clear_positions ride_id db = record db {
  positions = keep (λ p. not (position_of ride_id p)) db.positions;
}

unfoldable pub clear_position : String → String → Db → Db
clear_position ride_id rider_id db = record db {
  positions = keep (λ p. not (position_at ride_id rider_id p)) db.positions;
}

module _ (env : Env) where
  abbrev pub presence_ttl : ℕ
  presence_ttl = seconds env.settings.pre_start_presence_ttl_seconds

  unfoldable pub snapshot_of : PresenceSyncRequest → Fields → ℕ → Fields
  snapshot_of q raw now = put_field "deviceSignature" (or_null text q.proof.signature) (
      put_field "devicePublicKey" (or_null text q.proof.public_key) (
        put_field "signedAtMilliseconds" (or_null natural q.proof.signed_at_milliseconds) (
          put_field "authorityVersion" (or_null natural q.proof.authority_version) (
            put_field "clientProtocol" (natural q.client_protocol) (
              put_field "livePresence" (boolean q.live_presence) (
                put_field "expiresAt" (text (env.isoformat (now + presence_ttl))) (
                  put_field "receivedAt" (text (env.isoformat now))
                    (put_field "riderId" (text q.device_id) raw))))))))

  -- the row that is written for a position
  unfoldable pub position_row : PresenceSyncRequest → List ℕ → ℕ → PreStartPosition
  position_row q ciphertext now = record {
    ride_id = q.ride_id;
    rider_id = q.device_id;
    snapshot_ciphertext = ciphertext;
    received_at = now;
    expires_at = now + presence_ttl;
  }

  unfoldable pub publish : List ℕ → PresenceSyncRequest → Fields → ℕ → Exec Db (Unit {0})
  unfolding position_row
  publish nonce q raw now db =
      let exists = is_some (find (position_at q.ride_id q.device_id) db.positions) in
      let rider_count = count_of (position_of q.ride_id) db.positions in
      (do
        raise_if (not exists && leb env.settings.maximum_pre_start_presence_riders rider_count)
            (relay_service_error 409 "Live presence capacity reached")
        ciphertext ← lift (
            encrypt_json env nonce (object (snapshot_of q raw now))
              (pre_start_presence_aad q.ride_id q.device_id))
        modify (λ s. record s {
          positions = save_position exists (position_row q ciphertext now) s.positions;
        }))
        db

  unfoldable pub write_position : List ℕ → PresenceSyncRequest → ℕ → Exec Db (Unit {0})
  unfolding publish
  write_position nonce q now =
      if q.clear
      then modify (clear_position q.ride_id q.device_id)
      else elim q.position [ none ↦ pure tt | some p ↦ publish nonce q p.raw now ]

  unfoldable pub decrypt_pre_start_position : PreStartPosition → Result Fields
  decrypt_pre_start_position row =
      elim (decrypt_json env row.snapshot_ciphertext
        (pre_start_presence_aad row.ride_id row.rider_id)) [
          | ok (object fs) ↦ ok fs
          | ok _ ↦ err (relay_service_error 500 "Stored pre-start presence is invalid")
          | err e ↦ err e
        ]

  unfoldable pub decrypt_positions : List PreStartPosition → Result (List Fields)
  unfolding decrypt_pre_start_position
  decrypt_positions [] = ok []
  decrypt_positions (row ∷ rows) = elim (decrypt_pre_start_position row) [
    | err e ↦ err e
    | ok value ↦ elim (decrypt_positions rows) [ err e ↦ err e | ok values ↦ ok (value ∷ values) ]
  ]

  -- A caller without live presence reads nothing after the start.
  abbrev is_hidden : Phase → Bool → Bool
  is_hidden started false = true
  is_hidden _ _ = false

  unfoldable pub read_positions : PresenceSyncRequest → Phase → Exec Db (List Fields)
  unfolding decrypt_positions
  read_positions q phase db = if is_hidden phase q.live_presence then (ok [], db) else (
    decrypt_positions (
        sort_by (λ a b. env.collates a.rider_id b.rider_id)
          (keep (position_of q.ride_id) db.positions)),
    db,
  )

  -- the positions, after the caller's own is written or cleared
  unfoldable pub exchange : List ℕ → PresenceSyncRequest → Phase → ℕ → Exec Db (List Fields)
  exchange nonce q ended now = do modify (clear_positions q.ride_id); pure []
  exchange nonce q phase now = do write_position nonce q now; read_positions q phase

  unfoldable pub with_ride : List ℕ → PresenceSyncRequest → ℕ → Exec Db PresenceSyncResponse
  with_ride nonce q now db =
      let phase = ride_presence_phase q.ride_id db.events in
      (do
        lift (check_ride env q now db)
        modify (expire_positions q.ride_id now)
        members ← lift (presence_members env q.ride_id db.events)
        positions ← exchange nonce q phase now
        pure (record {
          ttl_seconds = env.settings.pre_start_presence_ttl_seconds;
          positions = positions;
          phase = phase;
          members = if q.live_presence then members else [];
          server_time = env.isoformat now;
        }))
        db

  unfoldable pub synchronize_pre_start_presence :
      List ℕ → PresenceSyncRequest → ℕ → Exec Db PresenceSyncResponse
  unfolding with_ride
  synchronize_pre_start_presence nonce q now = do
    lift (check_presence q now)
    transaction (with_ride nonce q now)
