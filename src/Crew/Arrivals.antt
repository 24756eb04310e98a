-- ===== src/Crew/Arrivals.antt =====
-- The invariant across `create_crew_room` and `join_crew_room` of
-- apps/server/src/balloon_crumbs_server/service.py.
use balloon_crumbs.Crypto.{encrypt_json, token_hash}
use balloon_crumbs.Prelude.{
  ◌≡◌, refl, sym, ap, ℕ, String, not, none, some, List, arith, eq_iff, is_some,
}
use balloon_crumbs.Result.{ok, >>=-invert, ok-injective, reject, or_raise}
use balloon_crumbs.Models.{CrewRoom, CrewRoomDevice, Db}
use balloon_crumbs.Json.{Fields, object}
use balloon_crumbs.Text.{compare_digest, is_invite_token}
use balloon_crumbs.Env.{Env}
use balloon_crumbs.Effect.{transaction}
use balloon_crumbs.Effect.Keeps.{Keeps, transaction-Keeps, then-Keeps, result-Keeps, test-Keeps}
use balloon_crumbs.Crew.Tables.{find_alias, find_room, updated, save_room}
use balloon_crumbs.Crew.Records.{
  Profile, normalise_crew_room_alias, validate_crew_room_profile, validate_crew_room_operation,
  crew_room_alias_digest, crew_room_device_digest, crew_room_aad, crew_room_device_aad,
  profile_json,
}
use balloon_crumbs.Crew.Rows.{
  CrewEntropy, new_room, new_device, new_room_id, invited, new_invite_token, alias_json,
  new_device_credential, inactive_invitation,
}
use balloon_crumbs.Crew.Owners.{compare_digest_refl}
use balloon_crumbs.Crew.Keeps.{room-led, found_room, kept_aliases}
use balloon_crumbs.Crew.Invariant.{
  IsCrew, save-IsCrew, add-IsCrew, admit_device-rooms, admit-IsCrew,
}
use balloon_crumbs.Crew.Handler.{
  Caller, insert_room, create_crew_room, enter_room, join_crew_room, admit_device,
}
use balloon_crumbs.Crew.Authorised.{or_raise-ok}

module _ (env : Env) where
  new_room-made :
      (entropy : CrewEntropy) (owner : List ℕ) (alias : String) (operation : Fields) (now : ℕ)
      (room : CrewRoom)
      → new_room env entropy owner alias operation now ≡ ok room
      → (room.id ≡ new_room_id env entropy)
        × (room.owner_device_digest ≡ owner)
        × (room.alias_digest ≡ crew_room_alias_digest env alias)
  unfolding new_room
  new_room-made entropy owner alias operation now room made =
      >>=-invert
        (encrypt_json env entropy.alias_nonce (alias_json alias)
          (crew_room_aad (new_room_id env entropy) "alias"))
        _ made
        (λ a _ made1.
          >>=-invert (token_hash env (new_invite_token env entropy)) _ made1 (λ b _ made2.
            >>=-invert
              (encrypt_json env entropy.operation_nonce (object operation)
                (crew_room_aad (new_room_id env entropy) "operation"))
              _ made2
              (λ c _ made3.
                let same = sym (ok-injective made3) in
                (
                  ap (λ r. r.id) same,
                  ap (λ r. r.owner_device_digest) same,
                  ap (λ r. r.alias_digest) same,
                ))))

  new_device-made :
      (entropy : CrewEntropy) (room_id : String) (digest : List ℕ) (profile : Profile) (now : ℕ)
      (device : CrewRoomDevice)
      → new_device env entropy room_id digest profile now ≡ ok device
      → (device.room_id ≡ room_id) × (device.device_digest ≡ digest) × (device.revoked_at ≡ none)
  unfolding new_device
  new_device-made entropy room_id digest profile now device made =
      >>=-invert (token_hash env (new_device_credential env entropy)) _ made (λ a _ made1.
        >>=-invert
          (encrypt_json env entropy.profile_nonce (profile_json profile)
            (crew_room_device_aad room_id digest))
          _ made1
          (λ b _ made2.
            let same = sym (ok-injective made2) in
            (
              ap (λ d. d.room_id) same,
              ap (λ d. d.device_digest) same,
              ap (λ d. d.revoked_at) same,
            )))

  insert_room-IsCrew :
      (entropy : CrewEntropy) (alias : String) (digest : List ℕ) (profile : Profile)
      (operation : Fields) (now : ℕ)
      → Keeps IsCrew (insert_room env entropy alias digest profile operation now)
  unfolding insert_room
  insert_room-IsCrew entropy alias digest profile operation now db crew =
      test-Keeps IsCrew (is_some (find_alias (crew_room_alias_digest env alias) db.crew_rooms)) _ _
        db crew
        (λ free.
          result-Keeps IsCrew (new_room env entropy digest alias operation now) _ db crew
            (λ room made.
              result-Keeps IsCrew
                (new_device env entropy (new_room_id env entropy) digest profile now) _ db crew
                (λ owner led.
                  test-Keeps IsCrew (is_some (find_room room.id db.crew_rooms)) _ _ db crew
                    (λ fresh.
                      let (id, led_by, alias_same) =
                        new_room-made entropy digest alias operation now room made in
                      let (here, digest_same, active) =
                        new_device-made entropy (new_room_id env entropy) digest profile now owner
                          led in
                      add-IsCrew room owner db (rw alias_same free) fresh
                        (rw (id, led_by, here, digest_same, active)
                          (ground (
                            arith,
                            (eq_iff (new_room_id env entropy) (new_room_id env entropy)),
                            compare_digest_refl digest,
                          )))
                        crew))))

  pub create_crew_room-IsCrew :
      (entropy : CrewEntropy) (caller : Caller) (display_name : String) (operation : Fields)
      (bearer_token : String) (now : ℕ)
      → Keeps IsCrew (create_crew_room env entropy caller display_name operation bearer_token now)
  unfolding create_crew_room
  create_crew_room-IsCrew entropy caller display_name operation bearer_token now db crew =
      then-Keeps IsCrew (normalise_crew_room_alias env caller.alias) _ db crew (λ alias s1 c1.
        then-Keeps IsCrew (validate_crew_room_profile caller.device_id display_name) _ s1 c1
          (λ profile s2 c2.
            then-Keeps IsCrew (validate_crew_room_operation env operation bearer_token) _ s2 c2
              (λ clean s3 c3.
                then-Keeps IsCrew
                  (crew_room_device_digest env (new_room_id env entropy) profile.device_id) _ s3 c3
                  (λ digest s4 c4.
                    then-Keeps IsCrew
                      (transaction (insert_room env entropy alias digest profile clean now) s4).0 _
                      _
                      (transaction-Keeps IsCrew
                        (insert_room env entropy alias digest profile clean now)
                        (insert_room-IsCrew entropy alias digest profile clean now) s4 c4)
                      (λ _ _ c5. c5)))))

  entered-IsCrew :
      (alias : String) (room : CrewRoom) (device : CrewRoomDevice) (now : ℕ) (db : Db)
      → find_alias (crew_room_alias_digest env alias) db.crew_rooms ≡ some room
      → device.revoked_at ≡ none
      → IsCrew db
      → IsCrew (save_room (updated now room) (admit_device device db))
  unfolding save_room
  entered-IsCrew alias room device now db found n crew =
      let db' = admit_device device db in
      let crew' = admit-IsCrew device db n crew in
      let found' : find_alias (crew_room_alias_digest env alias) db'.crew_rooms ≡ some room =
        rw (admit_device-rooms device db) found in
      let here = found_room env alias db' room found' crew' in
      save-IsCrew (updated now room) room db'.crew_devices db' here
        (kept_aliases env alias db' room (updated now room) found' refl refl crew') (λ r _ led. led)
        (room-led env alias db' room found' crew') crew'

  invited-found :
      (alias invite_token : String) (db : Db) (room : CrewRoom)
      → invited env alias invite_token db ≡ ok room
      → find_alias (crew_room_alias_digest env alias) db.crew_rooms ≡ some room
  unfolding invited
  invited-found alias invite_token db room may =
      >>=-invert
        (or_raise (find_alias (crew_room_alias_digest env alias) db.crew_rooms) inactive_invitation)
        _ may
        (λ found f may1. >>=-invert (token_hash env invite_token) _ may1 (λ hash _ may2.
          >>=-invert
            (reject (not (compare_digest found.invite_token_hash hash)) inactive_invitation) _ may2
            (λ _ _ may3. rw⁻¹ (ok-injective may3) (or_raise-ok _ _ _ f))))

  enter_room-IsCrew :
      (entropy : CrewEntropy) (alias invite_token : String) (profile : Profile) (now : ℕ)
      → Keeps IsCrew (enter_room env entropy alias invite_token profile now)
  unfolding enter_room
  enter_room-IsCrew entropy alias invite_token profile now db crew =
      result-Keeps IsCrew (invited env alias invite_token db) _ db crew (λ room may.
        result-Keeps IsCrew (crew_room_device_digest env room.id profile.device_id) _ db crew
          (λ digest _.
            result-Keeps IsCrew (new_device env entropy room.id digest profile now) _ db crew
              (λ device made.
                let (_, _, active) =
                  new_device-made entropy room.id digest profile now device made in
                entered-IsCrew alias room device now db
                  (invited-found alias invite_token db room may) active crew)))

  pub join_crew_room-IsCrew :
      (entropy : CrewEntropy) (alias invite_token device_id display_name : String) (now : ℕ)
      → Keeps IsCrew (join_crew_room env entropy alias invite_token device_id display_name now)
  unfolding join_crew_room
  join_crew_room-IsCrew entropy alias invite_token device_id display_name now db crew =
      then-Keeps IsCrew (normalise_crew_room_alias env alias) _ db crew (λ normalised s1 c1.
        test-Keeps IsCrew (not (is_invite_token invite_token)) _ _ s1 c1 (λ _.
          then-Keeps IsCrew (validate_crew_room_profile device_id display_name) _ s1 c1 (λ profile.
            transaction-Keeps IsCrew (enter_room env entropy normalised invite_token profile now)
              (enter_room-IsCrew entropy normalised invite_token profile now))))
