-- ===== src/Crew/Handler.antt =====
-- The operations on crew rooms (apps/server/src/balloon_crumbs_server/service.py, 710-1065): one
-- transaction each.
use balloon_crumbs.Prelude.{
  ℕ, String, Bool, true, false, not, Option, none, some, List, [], ◌∷◌, ◌++◌, str_eq, is_some, keep,
  find, any,
}
use balloon_crumbs.Result.{relay_service_error, integrity_error, Result, ok, err}
use balloon_crumbs.Effect.{Exec, pure, lift, gets, transaction, ◌>>=◌, ◌>>◌, modify, raise_if}
use balloon_crumbs.Models.{CrewRoom, CrewRoomDevice, Db}
use balloon_crumbs.Json.{Fields}
use balloon_crumbs.Prelude.Order.{order_by}
use balloon_crumbs.Text.{compare_digest, is_invite_token}
use balloon_crumbs.Env.{Env}
use balloon_crumbs.Crew.Tables.{
  find_alias, find_room, device_at, seen, updated, save_device, save_room,
}
use balloon_crumbs.Crew.Access.{authorise_crew_room_device}
use balloon_crumbs.Crew.Records.{
  Profile, CrewRoomResponse, normalise_crew_room_alias, validate_crew_room_profile,
  validate_crew_room_operation, crew_room_alias_digest, crew_room_device_digest, crew_room_response,
  decrypt_crew_room_profile,
}
use balloon_crumbs.Crew.Rows.{
  CrewEntropy, new_room_id, new_device_credential, new_invite_token, new_device, new_room, invited,
  renewed, restarted, renamed, transferable, revocable, taken_by_another, inactive_invitation,
}

-- who calls: the alias of a room, a device of it and its credential
pub record Caller : Type 0 where
  pub alias : String
  pub device_id : String
  pub credential : String

-- a device as the owner sees it
pub record DeviceView : Type 0 where
  pub profile : Profile
  pub owner : Bool
  pub revoked : Bool
  pub last_seen_at : ℕ

-- the devices of a room go with it
unfoldable pub drop_room : String → Db → Db
drop_room room_id db = record db {
  crew_rooms = keep (λ r. not (str_eq r.id room_id)) db.crew_rooms;
  crew_devices = keep (λ d. not (str_eq d.room_id room_id)) db.crew_devices;
}

unfoldable pub add_device : CrewRoomDevice → Db → Db
add_device device db = record db { crew_devices = db.crew_devices ++ device ∷ [] }

unfoldable pub add_room : CrewRoom → Db → Db
add_room room db = record db { crew_rooms = db.crew_rooms ++ room ∷ [] }

-- the row of a device that joins: added, or written over the one that the room has for it
unfoldable pub write_device : Option CrewRoomDevice → CrewRoomDevice → Db → Db
unfolding add_device
write_device none device db = add_device device db
write_device (some old) device db = save_device (renewed old device) db

unfoldable pub admit_device : CrewRoomDevice → Db → Db
unfolding write_device
admit_device device db =
    write_device (find (device_at device.room_id device.device_digest) db.crew_devices) device db

module _ (env : Env) where
  -- the transaction of an operation of a device: its own work, once the device is authorised
  unfoldable pub authorised :
      {A : Type 0}
      → Caller
      → Bool
      → (String → CrewRoom → CrewRoomDevice → Exec Db A)
      → String
      → Exec Db A
  authorised caller owner_required body alias db =
      (do
        found ← lift (
            authorise_crew_room_device env alias caller.device_id caller.credential owner_required
              db)
        body alias found.0 found.1)
        db

  -- what each operation of a device does around its own work
  unfoldable pub as_device :
      {A : Type 0} → Caller → Bool → (String → CrewRoom → CrewRoomDevice → Exec Db A) → Exec Db A
  unfolding authorised
  as_device caller owner_required body = do
    alias ← lift (normalise_crew_room_alias env caller.alias)
    transaction (authorised caller owner_required body alias)

  -- the rows of a new room; `integrity_error` is a room identity that is in use
  unfoldable pub insert_room :
      CrewEntropy → String → List ℕ → Profile → Fields → ℕ → Exec Db CrewRoom
  unfolding add_device add_room
  insert_room entropy alias digest profile operation now db =
      (do
        raise_if (is_some (find_alias (crew_room_alias_digest env alias) db.crew_rooms))
            (relay_service_error 409 "Crew room alias is already in use")
        room ← lift (new_room env entropy digest alias operation now)
        owner ← lift (new_device env entropy (new_room_id env entropy) digest profile now)
        raise_if (is_some (find_room room.id db.crew_rooms)) integrity_error
        modify (λ s. add_device owner (add_room room s))
        pure room)
        db

  unfoldable pub create_crew_room :
      CrewEntropy → Caller → String → Fields → String → ℕ → Exec Db CrewRoomResponse
  unfolding insert_room
  create_crew_room entropy caller display_name operation bearer_token now = do
    alias ← lift (normalise_crew_room_alias env caller.alias)
    profile ← lift (validate_crew_room_profile caller.device_id display_name)
    clean ← lift (validate_crew_room_operation env operation bearer_token)
    digest ← lift (crew_room_device_digest env (new_room_id env entropy) profile.device_id)
    room ← transaction (insert_room entropy alias digest profile clean now)
    pure (record {
      room_id = room.id;
      alias = alias;
      device_credential = new_device_credential env entropy;
      invite_token = some (new_invite_token env entropy);
      operation_generation = 1;
      operation = some clean;
      operation_expires_at = room.operation_expires_at;
      owner = true;
    })

  unfoldable pub open_crew_room : Caller → ℕ → Exec Db CrewRoomResponse
  unfolding as_device
  open_crew_room caller now = as_device caller false (λ alias room device. do
    modify (save_device (seen now device))
    lift (crew_room_response env room caller.credential none device.device_digest now))

  unfoldable pub enter_room : CrewEntropy → String → String → Profile → ℕ → Exec Db CrewRoomResponse
  unfolding admit_device
  enter_room entropy alias invite_token profile now db =
      (do
        room ← lift (invited env alias invite_token db)
        digest ← lift (crew_room_device_digest env room.id profile.device_id)
        device ← lift (new_device env entropy room.id digest profile now)
        modify (λ s. save_room (updated now room) (admit_device device s))
        lift (
            crew_room_response env (updated now room) (new_device_credential env entropy) none
              digest now))
        db

  -- The caller has no credential yet.
  unfoldable pub join_crew_room :
      CrewEntropy → String → String → String → String → ℕ → Exec Db CrewRoomResponse
  unfolding enter_room
  join_crew_room entropy alias invite_token device_id display_name now = do
    normalised ← lift (normalise_crew_room_alias env alias)
    raise_if (not (is_invite_token invite_token)) inactive_invitation
    profile ← lift (validate_crew_room_profile device_id display_name)
    transaction (enter_room entropy normalised invite_token profile now)

  unfoldable pub start_crew_room_operation :
      CrewEntropy → Caller → Fields → String → ℕ → Exec Db CrewRoomResponse
  unfolding as_device
  start_crew_room_operation entropy caller operation bearer_token now = do
    lift (normalise_crew_room_alias env caller.alias)
    clean ← lift (validate_crew_room_operation env operation bearer_token)
    as_device caller true (λ alias room device. do
      room' ← lift (restarted env entropy clean room now)
      modify (λ s. save_room room' (save_device (seen now device) s))
      lift (
          crew_room_response env room' caller.credential (some (new_invite_token env entropy))
            device.device_digest now))

  unfoldable pub view_devices : List ℕ → List CrewRoomDevice → Result (List DeviceView)
  view_devices owner [] = ok []
  view_devices owner (d ∷ ds) = elim (decrypt_crew_room_profile env d) [
    | err e ↦ err e
    | ok profile ↦ elim (view_devices owner ds) [
      | err e ↦ err e
      | ok views ↦ ok (
          record {
            profile = profile;
            owner = compare_digest owner d.device_digest;
            revoked = is_some d.revoked_at;
            last_seen_at = d.last_seen_at;
          }
          ∷ views)
    ]
  ]

  unfoldable pub list_crew_room_devices : Caller → ℕ → Exec Db (String × List DeviceView)
  unfolding as_device view_devices
  list_crew_room_devices caller now = as_device caller true (λ alias room device. do
    modify (save_device (seen now device))
    devices ← gets (λ s. keep (λ d. str_eq d.room_id room.id) s.crew_devices)
    views ← lift (view_devices room.owner_device_digest (order_by (λ d. d.created_at) devices))
    pure (alias, views))

  unfoldable pub rename_crew_room : CrewEntropy → Caller → String → ℕ → Exec Db (String × String)
  unfolding as_device
  rename_crew_room entropy caller new_alias now = do
    lift (normalise_crew_room_alias env caller.alias)
    new ← lift (normalise_crew_room_alias env new_alias)
    as_device caller true (λ alias room device. do
      rooms ← gets (λ s. s.crew_rooms)
      raise_if (any (taken_by_another (crew_room_alias_digest env new) room.id) rooms)
          (relay_service_error 409 "Crew room alias is already in use")
      room' ← lift (renamed env entropy new room now)
      modify (λ s. save_room room' (save_device (seen now device) s))
      pure (room.id, new))

  unfoldable pub transfer_crew_room : Caller → String → ℕ → Exec Db (Unit {0})
  unfolding as_device
  transfer_crew_room caller target_device_id now = as_device caller true (λ alias room device db.
      (do
        digest ← lift (transferable env room target_device_id db)
        modify (λ s.
            save_room (record room { owner_device_digest = digest; updated_at = now })
              (save_device (seen now device) s)))
        db)

  -- the owner's device and the target's are different rows
  unfoldable pub revoke_device : String → ℕ → CrewRoom → CrewRoomDevice → Exec Db (Unit {0})
  revoke_device target_device_id now room device db =
      (do
        target ← lift (revocable env room target_device_id db)
        modify (λ s. save_room (updated now room) (
            save_device (seen now device)
              (save_device (record target { revoked_at = some now }) s))))
        db

  unfoldable pub revoke_crew_room_device : Caller → String → ℕ → Exec Db (Unit {0})
  unfolding as_device revoke_device
  revoke_crew_room_device caller target_device_id now =
      as_device caller true (λ alias room device. revoke_device target_device_id now room device)

  unfoldable pub delete_crew_room : Caller → Exec Db (Unit {0})
  unfolding as_device drop_room
  delete_crew_room caller = as_device caller true (λ alias room device. modify (drop_room room.id))
