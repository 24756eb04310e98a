-- ===== src/JoinCode/Handler.antt =====
-- `register_join_code` and `resolve_join_code` of
-- apps/server/src/balloon_crumbs_server/service.py: one transaction each.
use balloon_crumbs.Prelude.{
  ℕ, ◌+◌, String, false, not, ◌&&◌, Option, none, some, List, [], ◌∷◌, ◌++◌, str_eq, ltb, leb,
  if◌then◌else◌, keep, find,
}
use balloon_crumbs.Result.{relay_service_error, ok, err}
use balloon_crumbs.Effect.{Exec, pure, lift, transaction, ◌>>=◌, ◌>>◌, modify, raise_if}
use balloon_crumbs.Models.{Ride, RideJoinCode, Db, put_ride}
use balloon_crumbs.Text.{compare_digest}
use balloon_crumbs.Env.{Env, hours}
use balloon_crumbs.Sync.Handler.{get_or_claim_ride}
use balloon_crumbs.JoinCode.Records.{
  Registration, Resolved, validate_join_code, check_registration, open_record,
}

-- `session.get(RideJoinCode, code)`
abbrev pub find_code : String → List RideJoinCode → Option RideJoinCode
find_code code rows = find (λ r. str_eq r.code code) rows

unfoldable pub put_code : RideJoinCode → List RideJoinCode → List RideJoinCode
put_code row [] = []
put_code row (r ∷ rows) = if str_eq r.code row.code then row ∷ rows else r ∷ put_code row rows

-- `delete(RideJoinCode).where(RideJoinCode.expires_at <= now)`
unfoldable pub expire_codes : ℕ → Db → Db
expire_codes now db = record db { join_codes = keep (λ r. ltb now r.expires_at) db.join_codes }

-- `ride.authority_root_public_key`, once it is set, keeps its value
unfoldable pub set_authority : Option String → Ride → Exec Db (Unit {0})
set_authority none ride = pure tt
set_authority (some key) ride = do
  raise_if (elim ride.authority_root_public_key [ none ↦ false | some old ↦ not (str_eq old key) ])
      (relay_service_error 409 "Ride authority is already registered")
  modify (λ db. record db {
    rides = put_ride (record ride { authority_root_public_key = some key }) db.rides;
  })

module _ (env : Env) where
  unfoldable pub new_code : Registration → List ℕ → List ℕ → ℕ → RideJoinCode
  new_code r hash ciphertext now = record {
    code = r.ride_code;
    ride_id = r.ride_id;
    token_hash = hash;
    secret_ciphertext = ciphertext;
    created_at = now;
    expires_at = now + hours env.settings.ride_retention_hours;
  }

  -- the row of the code is added, or given the new secret by the ride that has it
  unfoldable pub save_code : Registration → List ℕ → List ℕ → ℕ → Exec Db (Unit {0})
  unfolding new_code
  save_code r hash ciphertext now db = elim (find_code r.ride_code db.join_codes) [
    | none ↦
        (ok tt, record db { join_codes = db.join_codes ++ new_code r hash ciphertext now ∷ [] })
    | some old ↦
        if str_eq old.ride_id r.ride_id && compare_digest old.token_hash hash
        then (
          ok tt,
          record db {
            join_codes = put_code (record old { secret_ciphertext = ciphertext }) db.join_codes;
          },
        )
        else (err (relay_service_error 409 "Ride code is already in use"), db)
  ]

  unfoldable pub register_join_code : List ℕ → Registration → ℕ → Exec Db (Unit {0})
  unfolding set_authority save_code
  register_join_code nonce r now = do
    checked ← lift (check_registration env nonce r)
    let (hash, ciphertext) = checked
    transaction (do
      modify (expire_codes now)
      ride ← get_or_claim_ride env r.ride_id r.bearer_token now
      raise_if (not (compare_digest ride.token_hash hash))
          (relay_service_error 403 "Ride credential rejected")
      set_authority r.authority_root_public_key ride
      save_code r hash ciphertext now)

  -- An expired row is deleted before the raise that rolls the deletion back.
  unfoldable pub read_code : String → Option String → ℕ → Exec Db Resolved
  read_code ride_code resolve_token now db = elim (find_code ride_code db.join_codes) [
    | none ↦ (err (relay_service_error 404 "Ride code is not active"), db)
    | some row ↦
        if leb row.expires_at now
        then (
          err (relay_service_error 404 "Ride code is not active"),
          record db { join_codes = keep (λ r. not (str_eq r.code ride_code)) db.join_codes },
        )
        else (open_record env ride_code resolve_token row, db)
  ]

  unfoldable pub resolve_join_code : String → Option String → ℕ → Exec Db Resolved
  unfolding read_code
  resolve_join_code ride_code resolve_token now = do
    lift (validate_join_code env ride_code)
    transaction (read_code ride_code resolve_token now)
