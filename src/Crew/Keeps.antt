-- ===== src/Crew/Keeps.antt =====
-- The invariant across the operations on crew rooms
-- (apps/server/src/balloon_crumbs_server/service.py, 710-1065).
use balloon_crumbs.Prelude.{
  ◌≡◌, inl, inr, ℕ, ◌≤◌, String, Bool, true, false, none, some, List, arith, any,
}
use balloon_crumbs.Result.{ok, Result-cases}
use balloon_crumbs.Models.{CrewRoom, CrewRoomDevice, Db}
use balloon_crumbs.Env.{Env}
use balloon_crumbs.Effect.{Exec, transaction}
use balloon_crumbs.Effect.Keeps.{Keeps, transaction-Keeps, then-Keeps}
use balloon_crumbs.Crew.Tables.{
  find_alias, find_room, put_room, put_device, seen, save_device, save_room,
}
use balloon_crumbs.Crew.Access.{authorise_crew_room_device}
use balloon_crumbs.Crew.Records.{normalise_crew_room_alias, crew_room_alias_digest}
use balloon_crumbs.Crew.Rows.{taken_by_another}
use balloon_crumbs.Crew.Authorised.{IsAuthorised, authorise_crew_room_device-IsAuthorised}
use balloon_crumbs.Crew.Counts.{with_alias, find-all, find_room-found}
use balloon_crumbs.Crew.Owners.{all_mono, is_led}
use balloon_crumbs.Crew.Invariant.{
  IsCrew, put_device-is_led, save-IsCrew, same_alias-le, new_alias-le,
}
use balloon_crumbs.Crew.Handler.{Caller, as_device, authorised}
use balloon_crumbs.Effect.Inversion.{continue-invert, transaction-ok}

module _ (env : Env) where
  authorised-Keeps :
      {A : Type 0} (P : Db → Type 0) (caller : Caller) (owner_required : Bool)
      (body : String → CrewRoom → CrewRoomDevice → Exec Db A)
      → ((alias : String) (room : CrewRoom) (device : CrewRoomDevice) (db : Db)
          → IsAuthorised env alias owner_required db room device
          → P db
          → P (body alias room device db).1)
      → (alias : String) → Keeps P (authorised env caller owner_required body alias)
  unfolding authorised
  authorised-Keeps P caller owner_required body k alias db h =
      elim (Result-cases (
        authorise_crew_room_device env alias caller.device_id caller.credential owner_required
          db)) [
            | inr (e, refused) ↦ rw refused h
            | inl ((room, device), passed) ↦ rw passed (
                k alias room device db
                  (authorise_crew_room_device-IsAuthorised env alias caller.device_id
                    caller.credential owner_required db room device passed)
                  h)
          ]

  -- A device's operation keeps a predicate that its own work keeps for an authorised device.
  pub as_device-Keeps :
      {A : Type 0} (P : Db → Type 0) (caller : Caller) (owner_required : Bool)
      (body : String → CrewRoom → CrewRoomDevice → Exec Db A)
      → ((alias : String) (room : CrewRoom) (device : CrewRoomDevice) (db : Db)
          → IsAuthorised env alias owner_required db room device
          → P db
          → P (body alias room device db).1)
      → Keeps P (as_device env caller owner_required body)
  unfolding as_device
  as_device-Keeps P caller owner_required body k db h =
      then-Keeps P (normalise_crew_room_alias env caller.alias) _ db h (λ alias.
        transaction-Keeps P (authorised env caller owner_required body alias)
          (authorised-Keeps P caller owner_required body k alias))

  -- An operation of a device that returned did its own work, for an authorised device.
  pub as_device-invert :
      {A P : Type 0} (caller : Caller) (owner_required : Bool)
      (body : String → CrewRoom → CrewRoomDevice → Exec Db A) (db db' : Db) (a : A)
      → as_device env caller owner_required body db ≡ (ok a, db')
      → ((alias : String) (room : CrewRoom) (device : CrewRoomDevice)
          → normalise_crew_room_alias env caller.alias ≡ ok alias
          → authorise_crew_room_device env alias caller.device_id caller.credential owner_required
              db
            ≡ ok (room, device)
          → body alias room device db ≡ (ok a, db')
          → P)
      → P
  unfolding as_device authorised
  as_device-invert caller owner_required body db db' a h k =
      continue-invert (normalise_crew_room_alias env caller.alias)
        (λ alias. transaction (authorised env caller owner_required body alias)) db db' a h
        (λ alias n h1.
          continue-invert
            (authorise_crew_room_device env alias caller.device_id caller.credential owner_required
              db)
            (λ found. body alias found.0 found.1) db db' a
            (transaction-ok (authorised env caller owner_required body alias) db db' a h1)
            (λ found passed. k alias found.0 found.1 n passed))

  -- The room that an alias finds is the one that its identity finds.
  pub found_room :
      (alias : String) (db : Db) (room : CrewRoom)
      → find_alias (crew_room_alias_digest env alias) db.crew_rooms ≡ some room
      → IsCrew db
      → find_room room.id db.crew_rooms ≡ some room
  unfolding IsCrew
  found_room alias db room found (ids, _, _) =
      find_room-found _ db.crew_rooms room found (ids room.id)

  pub room-led :
      (alias : String) (db : Db) (room : CrewRoom)
      → find_alias (crew_room_alias_digest env alias) db.crew_rooms ≡ some room
      → IsCrew db
      → is_led db.crew_devices room ≡ true
  unfolding IsCrew
  room-led alias db room found (_, _, owners) =
      find-all _ (is_led db.crew_devices) db.crew_rooms room found owners

  pub seen-is_led :
      (now : ℕ) (device : CrewRoomDevice) (devices : List CrewRoomDevice) (r : CrewRoom)
      → device.revoked_at ≡ none
      → is_led devices r ≡ true
      → is_led (put_device (seen now device) devices) r ≡ true
  seen-is_led now device devices r n h =
      put_device-is_led (seen now device) devices r (ground (arith, n)) h

  -- writing a device back as seen
  pub seen-IsCrew :
      (now : ℕ) (alias : String) (owner_required : Bool) (room : CrewRoom) (device : CrewRoomDevice)
      (db : Db)
      → IsAuthorised env alias owner_required db room device
      → IsCrew db
      → IsCrew (save_device (seen now device) db)
  unfolding save_device IsCrew
  seen-IsCrew now alias owner_required room device db (_, _, active, _) (ids, aliases, owners) = (
    ids,
    aliases,
    all_mono (is_led db.crew_devices) (is_led (put_device (seen now device) db.crew_devices))
        db.crew_rooms (λ r. seen-is_led now device db.crew_devices r active) owners,
  )

  -- A room that is written back under the alias that it had.
  pub kept_aliases :
      (alias : String) (db : Db) (room room' : CrewRoom)
      → find_alias (crew_room_alias_digest env alias) db.crew_rooms ≡ some room
      → room'.id ≡ room.id
      → room'.alias_digest ≡ room.alias_digest
      → IsCrew db
      → (digest : List ℕ) → with_alias digest (put_room room' db.crew_rooms) ≤ 1
  unfolding IsCrew
  kept_aliases alias db room room' found same alias_same crew digest =
      let (_, aliases, _) = crew in
      same_alias-le room' room db.crew_rooms (rw same (found_room alias db room found crew))
        alias_same digest (aliases digest)

  -- A room that is written back under an alias that no other room has.
  pub free_alias :
      (alias : String) (db : Db) (room room' : CrewRoom)
      → find_alias (crew_room_alias_digest env alias) db.crew_rooms ≡ some room
      → room'.id ≡ room.id
      → any (taken_by_another room'.alias_digest room.id) db.crew_rooms ≡ false
      → IsCrew db
      → (digest : List ℕ) → with_alias digest (put_room room' db.crew_rooms) ≤ 1
  unfolding IsCrew
  free_alias alias db room room' found same free crew digest =
      let (ids, aliases, _) = crew in
      new_alias-le room' room db.crew_rooms (rw same (found_room alias db room found crew))
        (rw same free) (ids room'.id) digest (aliases digest)

  -- A room that keeps its identity and owner and, where it changes, a free alias.
  pub rewritten-IsCrew :
      (now : ℕ) (alias : String) (room room' : CrewRoom) (device : CrewRoomDevice) (db : Db)
      → IsAuthorised env alias true db room device
      → room'.id ≡ room.id
      → room'.owner_device_digest ≡ room.owner_device_digest
      → ((digest : List ℕ) → with_alias digest (put_room room' db.crew_rooms) ≤ 1)
      → IsCrew db
      → IsCrew (save_room room' (save_device (seen now device) db))
  unfolding save_device save_room
  rewritten-IsCrew now alias room room' device db authorised same owner aliases crew =
      let (found, _, active, _) = authorised in
      save-IsCrew room' room (put_device (seen now device) db.crew_devices) db
        (rw same (found_room alias db room found crew)) aliases
        (λ r _. seen-is_led now device db.crew_devices r active)
        (seen-is_led now device db.crew_devices room' active
          (rw (same, owner) (room-led alias db room found crew)))
        crew
