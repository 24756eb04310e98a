-- ===== src/Crew/Led.antt =====
-- Each operation on crew rooms, and the invariant
-- (apps/server/src/balloon_crumbs_server/service.py, 710-1065).
use balloon_crumbs.Crypto.{encrypt_json, token_hash}
use balloon_crumbs.Prelude.{
  subst, ◌≡◌, refl, sym, ap, ℕ, String, true, false, some, List, arith, str_eq, eq_iff, keep, any,
}
use balloon_crumbs.Result.{ok, >>=-invert, ok-injective, reject}
use balloon_crumbs.Models.{CrewRoom, CrewRoomDevice, Db}
use balloon_crumbs.Json.{Fields, object}
use balloon_crumbs.Text.{compare_digest}
use balloon_crumbs.Env.{Env}
use balloon_crumbs.Effect.{pure}
use balloon_crumbs.Effect.Keeps.{Keeps, then-Keeps, result-Keeps, test-Keeps}
use balloon_crumbs.Crew.Tables.{put_device, active_at, seen, updated, save_device, save_room}
use balloon_crumbs.Crew.Records.{
  normalise_crew_room_alias, validate_crew_room_operation, crew_room_alias_digest,
  crew_room_device_digest, crew_room_aad,
}
use balloon_crumbs.Crew.Rows.{
  CrewEntropy, taken_by_another, restarted, renamed, transferable, revocable, active_device,
  new_invite_token, alias_json,
}
use balloon_crumbs.Crew.Authorised.{IsAuthorised, or_raise-ok, reject-ok}
use balloon_crumbs.Crew.Counts.{find-true, find-any}
use balloon_crumbs.Crew.Owners.{compare_digest_sound}
use balloon_crumbs.Crew.Keeps.{
  as_device-Keeps, found_room, room-led, seen-is_led, seen-IsCrew, rewritten-IsCrew, kept_aliases,
  free_alias,
}
use balloon_crumbs.Crew.Invariant.{IsCrew, put_device-is_led, save-IsCrew, drop-IsCrew}
use balloon_crumbs.Crew.Handler.{
  Caller, open_crew_room, start_crew_room_operation, list_crew_room_devices, view_devices,
  rename_crew_room, transfer_crew_room, revoke_crew_room_device, delete_crew_room, revoke_device,
}
use balloon_crumbs.Prelude.Order.{order_by}

module _ (env : Env) where
  restarted-keeps :
      (entropy : CrewEntropy) (clean : Fields) (now : ℕ) (room room' : CrewRoom)
      → restarted env entropy clean room now ≡ ok room'
      → (room'.id ≡ room.id)
        × (room'.owner_device_digest ≡ room.owner_device_digest)
        × (room'.alias_digest ≡ room.alias_digest)
  unfolding restarted
  restarted-keeps entropy clean now room room' made =
      >>=-invert
        (encrypt_json env entropy.operation_nonce (object clean)
          (crew_room_aad room.id "operation"))
        _ made
        (λ sealed _ made1.
          >>=-invert (token_hash env (new_invite_token env entropy)) _ made1 (λ hash _ made2.
            let same = sym (ok-injective made2) in
            (
              ap (λ r. r.id) same,
              ap (λ r. r.owner_device_digest) same,
              ap (λ r. r.alias_digest) same,
            )))

  renamed-keeps :
      (entropy : CrewEntropy) (new : String) (now : ℕ) (room room' : CrewRoom)
      → renamed env entropy new room now ≡ ok room'
      → (room'.id ≡ room.id)
        × (room'.owner_device_digest ≡ room.owner_device_digest)
        × (room'.alias_digest ≡ crew_room_alias_digest env new)
  unfolding renamed
  renamed-keeps entropy new now room room' made =
      >>=-invert
        (encrypt_json env entropy.alias_nonce (alias_json new) (crew_room_aad room.id "alias")) _
        made
        (λ sealed _ made1.
          let same = sym (ok-injective made1) in
          (
            ap (λ r. r.id) same,
            ap (λ r. r.owner_device_digest) same,
            ap (λ r. r.alias_digest) same,
          ))

  restarted-IsCrew :
      (entropy : CrewEntropy) (clean : Fields) (now : ℕ) (alias : String) (room room' : CrewRoom)
      (device : CrewRoomDevice) (db : Db)
      → IsAuthorised env alias true db room device
      → restarted env entropy clean room now ≡ ok room'
      → IsCrew db
      → IsCrew (save_room room' (save_device (seen now device) db))
  restarted-IsCrew entropy clean now alias room room' device db authorised made crew =
      let (found, _, _, _) = authorised in
      let (same, owner, alias_same) = restarted-keeps entropy clean now room room' made in
      rewritten-IsCrew env now alias room room' device db authorised same owner
        (kept_aliases env alias db room room' found same alias_same crew) crew

  renamed-IsCrew :
      (entropy : CrewEntropy) (new : String) (now : ℕ) (alias : String) (room room' : CrewRoom)
      (device : CrewRoomDevice) (db : Db)
      → IsAuthorised env alias true db room device
      → any (taken_by_another (crew_room_alias_digest env new) room.id) db.crew_rooms ≡ false
      → renamed env entropy new room now ≡ ok room'
      → IsCrew db
      → IsCrew (save_room room' (save_device (seen now device) db))
  renamed-IsCrew entropy new now alias room room' device db authorised free made crew =
      let (found, _, _, _) = authorised in
      let (same, owner, taken) = renamed-keeps entropy new now room room' made in
      rewritten-IsCrew env now alias room room' device db authorised same owner
        (free_alias env alias db room room' found same (rw taken free) crew) crew

  transferred-IsCrew :
      (target_device_id : String) (now : ℕ) (alias : String) (digest : List ℕ) (room : CrewRoom)
      (device : CrewRoomDevice) (db : Db)
      → IsAuthorised env alias true db room device
      → transferable env room target_device_id db ≡ ok digest
      → IsCrew db
      → IsCrew (
          save_room
            (record room { owner_device_digest = digest; updated_at = now })
            (save_device (seen now device) db))
  unfolding save_device save_room transferable active_device
  transferred-IsCrew target_device_id now alias digest room device db authorised can crew =
      let (found, _, active, _) = authorised in
      let room' = record room { owner_device_digest = digest; updated_at = now } in
      >>=-invert (crew_room_device_digest env room.id target_device_id) _ can (λ digest1 _ can1.
        >>=-invert (active_device env room digest1 db) _ can1 (λ target t can2.
          save-IsCrew room' room (put_device (seen now device) db.crew_devices) db
            (found_room env alias db room found crew)
            (kept_aliases env alias db room room' found refl refl crew)
            (λ r _. seen-is_led env now device db.crew_devices r active)
            (seen-is_led env now device db.crew_devices room' active (
              subst (λ d. any (active_at room.id d) db.crew_devices ≡ true) (ok-injective can2)
                (find-any (active_at room.id digest1) db.crew_devices target
                  (or_raise-ok _ _ _ t))))
            crew))

  revoked-IsCrew :
      (target_device_id : String) (now : ℕ) (alias : String) (room : CrewRoom)
      (device target : CrewRoomDevice) (db : Db)
      → IsAuthorised env alias true db room device
      → revocable env room target_device_id db ≡ ok target
      → IsCrew db
      → IsCrew (
          save_room (updated now room) (
            save_device
              (seen now device)
              (save_device (record target { revoked_at = some now }) db)))
  unfolding save_device save_room revocable active_device
  revoked-IsCrew target_device_id now alias room device target db authorised can crew =
      let (found, _, active, _) = authorised in
      >>=-invert (crew_room_device_digest env room.id target_device_id) _ can (λ digest _ can1.
        >>=-invert (reject (compare_digest digest room.owner_device_digest) _) _ can1
          (λ u other can2.
            let here : active_at room.id digest target ≡ true =
              find-true (active_at room.id digest) db.crew_devices target
                (or_raise-ok _ _ _ can2) in
            let revoked = record target { revoked_at = some now } in
            save-IsCrew (updated now room) room
              (put_device (seen now device) (put_device revoked db.crew_devices)) db
              (found_room env alias db room found crew)
              (kept_aliases env alias db room (updated now room) found refl refl crew)
              (λ r apart led. seen-is_led env now device _ r active (
                put_device-is_led revoked db.crew_devices r
                  (ground (
                    arith,
                    here,
                    apart,
                    eq_iff target.room_id room.id,
                    eq_iff target.room_id r.id,
                    eq_iff r.id room.id,
                  ))
                  led))
              (seen-is_led env now device _ (updated now room) active (
                put_device-is_led revoked db.crew_devices (updated now room)
                  (let same : target.device_digest ≡ digest =
                      compare_digest_sound target.device_digest digest (ground (arith, here)) in
                    let differs : compare_digest target.device_digest room.owner_device_digest
                        ≡ false =
                      subst (λ d. compare_digest d room.owner_device_digest ≡ false) (sym same)
                        (reject-ok _ _ u other) in
                    ground (arith, differs))
                  (room-led env alias db room found crew)))
              crew))

  pub open_crew_room-IsCrew :
      (caller : Caller) (now : ℕ) → Keeps IsCrew (open_crew_room env caller now)
  unfolding open_crew_room
  open_crew_room-IsCrew caller now =
      as_device-Keeps env IsCrew caller false _ (λ alias room device db authorised crew.
        seen-IsCrew env now alias false room device db authorised crew)

  pub list_crew_room_devices-IsCrew :
      (caller : Caller) (now : ℕ) → Keeps IsCrew (list_crew_room_devices env caller now)
  unfolding list_crew_room_devices
  list_crew_room_devices-IsCrew caller now =
      as_device-Keeps env IsCrew caller true _ (λ alias room device db authorised crew.
        result-Keeps IsCrew
          (view_devices env room.owner_device_digest (
            order_by (λ d. d.created_at)
              (keep (λ d. str_eq d.room_id room.id)
                (save_device (seen now device) db).crew_devices)))
          (λ views. pure (alias, views)) (save_device (seen now device) db)
          (seen-IsCrew env now alias true room device db authorised crew)
          (λ _ _. seen-IsCrew env now alias true room device db authorised crew))

  pub delete_crew_room-IsCrew : (caller : Caller) → Keeps IsCrew (delete_crew_room env caller)
  unfolding delete_crew_room
  delete_crew_room-IsCrew caller =
      as_device-Keeps env IsCrew caller true _
        (λ alias room device db authorised crew. drop-IsCrew room.id db crew)

  pub start_crew_room_operation-IsCrew :
      (entropy : CrewEntropy) (caller : Caller) (operation : Fields) (bearer_token : String)
      (now : ℕ)
      → Keeps IsCrew (start_crew_room_operation env entropy caller operation bearer_token now)
  unfolding start_crew_room_operation
  start_crew_room_operation-IsCrew entropy caller operation bearer_token now db h =
      then-Keeps IsCrew (normalise_crew_room_alias env caller.alias) _ db h (λ _ db1 h1.
        then-Keeps IsCrew (validate_crew_room_operation env operation bearer_token) _ db1 h1
          (λ clean. as_device-Keeps env IsCrew caller true _ (λ alias room device s authorised crew.
            result-Keeps IsCrew (restarted env entropy clean room now) _ s crew (λ room' made.
              restarted-IsCrew entropy clean now alias room room' device s authorised made crew))))

  pub rename_crew_room-IsCrew :
      (entropy : CrewEntropy) (caller : Caller) (new_alias : String) (now : ℕ)
      → Keeps IsCrew (rename_crew_room env entropy caller new_alias now)
  unfolding rename_crew_room
  rename_crew_room-IsCrew entropy caller new_alias now db h =
      then-Keeps IsCrew (normalise_crew_room_alias env caller.alias) _ db h (λ _ db1 h1.
        then-Keeps IsCrew (normalise_crew_room_alias env new_alias) _ db1 h1 (λ new.
          as_device-Keeps env IsCrew caller true _ (λ alias room device s authorised crew.
            test-Keeps IsCrew
              (any (taken_by_another (crew_room_alias_digest env new) room.id) s.crew_rooms) _ _ s
              crew
              (λ free.
                result-Keeps IsCrew (renamed env entropy new room now) _ s crew (λ room' made.
                  renamed-IsCrew entropy new now alias room room' device s authorised free made
                    crew)))))

  pub transfer_crew_room-IsCrew :
      (caller : Caller) (target_device_id : String) (now : ℕ)
      → Keeps IsCrew (transfer_crew_room env caller target_device_id now)
  unfolding transfer_crew_room
  transfer_crew_room-IsCrew caller target_device_id now =
      as_device-Keeps env IsCrew caller true _ (λ alias room device db authorised crew.
        result-Keeps IsCrew (transferable env room target_device_id db) _ db crew (λ digest can.
          transferred-IsCrew target_device_id now alias digest room device db authorised can crew))

  pub revoke_crew_room_device-IsCrew :
      (caller : Caller) (target_device_id : String) (now : ℕ)
      → Keeps IsCrew (revoke_crew_room_device env caller target_device_id now)
  unfolding revoke_crew_room_device revoke_device
  revoke_crew_room_device-IsCrew caller target_device_id now =
      as_device-Keeps env IsCrew caller true _ (λ alias room device db authorised crew.
        result-Keeps IsCrew (revocable env room target_device_id db) _ db crew (λ target can.
          revoked-IsCrew target_device_id now alias room device target db authorised can crew))
