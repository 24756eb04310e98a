-- ===== src/Crew/Invariant.antt =====
-- The invariant of the crew rooms and the writes that keep it
-- (apps/server/src/balloon_crumbs_server/service.py, 710-1065).
use balloon_crumbs.Prelude.{
  subst, ◌≡◌, refl, inl, inr, ℕ, ◌≤◌, String, Bool, true, false, not, ◌&&◌, Option, none, some,
  List, [], ◌∷◌, ◌++◌, arith, str_eq, eq_iff, Bool-cases, is_some, keep, find, all, any,
  sum_of-append, sum_of-keep-le,
}
use balloon_crumbs.Models.{CrewRoom, CrewRoomDevice, Db}
use balloon_crumbs.Text.{compare_digest}
use balloon_crumbs.Crew.Tables.{
  find_alias, find_room, put_room, put_device, device_at, active_at, save_device,
}
use balloon_crumbs.Crew.Counts.{
  with_id, with_alias, one_if, find-true, find-none-count, put_room-count, untaken-count,
}
use balloon_crumbs.Crew.Owners.{
  is_led, compare_digest_sound, any-append, all-append, all_mono, any-keep, all-keep, all-put_room,
  any-put_device,
}
use balloon_crumbs.Crew.Rows.{taken_by_another, renewed}
use balloon_crumbs.Crew.Handler.{drop_room, add_device, add_room, admit_device, write_device}

-- Identities and aliases name one room at most, and every room is led by an active device of it.
unfoldable pub IsCrew : Db → Type 0
IsCrew db =
    ((id : String) → with_id id db.crew_rooms ≤ 1)
    × ((digest : List ℕ) → with_alias digest db.crew_rooms ≤ 1)
    × (all (is_led db.crew_devices) db.crew_rooms ≡ true)

-- a device whose row is no longer revoked when it is written back
abbrev pub device_keeps : CrewRoomDevice → CrewRoom → Bool
device_keeps device r =
    not (device_at r.id r.owner_device_digest device && is_some device.revoked_at)

pub put_device-is_led :
    (device : CrewRoomDevice) (devices : List CrewRoomDevice) (r : CrewRoom)
    → device_keeps device r ≡ true
    → is_led devices r ≡ true
    → is_led (put_device device devices) r ≡ true
put_device-is_led device devices r k h =
    any-put_device r.id r.owner_device_digest device devices (ground arith) h

pub add_device-is_led :
    (device : CrewRoomDevice) (devices : List CrewRoomDevice) (r : CrewRoom)
    → is_led devices r ≡ true
    → is_led (devices ++ device ∷ []) r ≡ true
add_device-is_led device devices r h =
    ground (arith, any-append (active_at r.id r.owner_device_digest) devices (device ∷ []))

write_device-is_led :
    (found : Option CrewRoomDevice) (device : CrewRoomDevice) (db : Db) (r : CrewRoom)
    → device.revoked_at ≡ none
    → is_led db.crew_devices r ≡ true
    → is_led (write_device found device db).crew_devices r ≡ true
unfolding write_device add_device save_device
write_device-is_led none device db r n h = add_device-is_led device db.crew_devices r h
write_device-is_led (some old) device db r n h =
    put_device-is_led (renewed old device) db.crew_devices r (ground (arith, n)) h

-- A device that joins takes no owner away.
pub admit_device-is_led :
    (device : CrewRoomDevice) (db : Db) (r : CrewRoom)
    → device.revoked_at ≡ none
    → is_led db.crew_devices r ≡ true
    → is_led (admit_device device db).crew_devices r ≡ true
unfolding admit_device
admit_device-is_led device db =
    write_device-is_led (find (device_at device.room_id device.device_digest) db.crew_devices)
      device db

same_id-le :
    (room old : CrewRoom) (rooms : List CrewRoom)
    → find_room room.id rooms ≡ some old
    → (id : String) → with_id id rooms ≤ 1
    → with_id id (put_room room rooms) ≤ 1
same_id-le room old rooms found id h =
    let same : old.id ≡ room.id =
      (eq_iff old.id room.id).0 (find-true (λ r. str_eq r.id room.id) rooms old found) in
    ground (arith, put_room-count (λ r. str_eq r.id id) room old rooms found, same)

-- A room is written back with another owner, alias or invitation, beside new rows of devices.
pub save-IsCrew :
    (room old : CrewRoom) (devices : List CrewRoomDevice) (db : Db)
    → find_room room.id db.crew_rooms ≡ some old
    → ((digest : List ℕ) → with_alias digest (put_room room db.crew_rooms) ≤ 1)
    → ((r : CrewRoom)
        → str_eq r.id room.id ≡ false
        → is_led db.crew_devices r ≡ true
        → is_led devices r ≡ true)
    → is_led devices room ≡ true
    → IsCrew db
    → IsCrew (record db { crew_rooms = put_room room db.crew_rooms; crew_devices = devices })
unfolding IsCrew
save-IsCrew room old devices db found aliases others led (ids, _, owners) = (
  λ id. same_id-le room old db.crew_rooms found id (ids id),
  aliases,
  all-put_room (is_led db.crew_devices) (is_led devices) room others db.crew_rooms (ids room.id) led
      owners,
)

-- A room that keeps its alias leaves every alias with one room at most.
pub same_alias-le :
    (room old : CrewRoom) (rooms : List CrewRoom)
    → find_room room.id rooms ≡ some old
    → room.alias_digest ≡ old.alias_digest
    → (digest : List ℕ) → with_alias digest rooms ≤ 1
    → with_alias digest (put_room room rooms) ≤ 1
same_alias-le room old rooms found same digest h =
    ground (arith, put_room-count (λ r. compare_digest r.alias_digest digest) room old rooms found)

-- A room that takes an alias which no other room has is the only one with it.
pub new_alias-le :
    (room old : CrewRoom) (rooms : List CrewRoom)
    → find_room room.id rooms ≡ some old
    → any (taken_by_another room.alias_digest room.id) rooms ≡ false
    → with_id room.id rooms ≤ 1
    → (digest : List ℕ) → with_alias digest rooms ≤ 1
    → with_alias digest (put_room room rooms) ≤ 1
new_alias-le room old rooms found free ids digest h =
    elim (Bool-cases (compare_digest room.alias_digest digest)) [
      | inl t ↦
          let same = compare_digest_sound room.alias_digest digest t in
          ground (
            arith,
            put_room-count (λ r. compare_digest r.alias_digest digest) room old rooms found,
            subst (λ d. with_alias d rooms ≤ one_if (compare_digest old.alias_digest d)) same
                (untaken-count room.alias_digest old room.id rooms free found ids),
          )
      | inr t ↦
          ground
            (arith, put_room-count (λ r. compare_digest r.alias_digest digest) room old rooms found)
    ]

pub add-IsCrew :
    (room : CrewRoom) (owner : CrewRoomDevice) (db : Db)
    → is_some (find_alias room.alias_digest db.crew_rooms) ≡ false
    → is_some (find_room room.id db.crew_rooms) ≡ false
    → active_at room.id room.owner_device_digest owner ≡ true
    → IsCrew db
    → IsCrew (add_device owner (add_room room db))
unfolding add_device add_room IsCrew
add-IsCrew room owner db alias_free id_free active (ids, aliases, owners) = (
  λ id. rw (sum_of-append (λ r. str_eq r.id id) (λ _. 1) db.crew_rooms (room ∷ [])) (
      ground (
        arith,
        ids id,
        eq_iff room.id id,
        find-none-count (λ r. str_eq r.id room.id) db.crew_rooms id_free,
      )),
  λ digest.
      rw
        (sum_of-append (λ r. compare_digest r.alias_digest digest) (λ _. 1) db.crew_rooms
          (room ∷ []))
        (ground (
          arith,
          aliases digest,
          compare_digest_sound room.alias_digest digest,
          find-none-count (λ r. compare_digest r.alias_digest room.alias_digest) db.crew_rooms
              alias_free,
        )),
  rw (all-append (is_led (db.crew_devices ++ owner ∷ [])) db.crew_rooms (room ∷ [])) (
      ground (
        arith,
        all_mono (is_led db.crew_devices) (is_led (db.crew_devices ++ owner ∷ [])) db.crew_rooms
            (add_device-is_led owner db.crew_devices) owners,
        any-append (active_at room.id room.owner_device_digest) db.crew_devices (owner ∷ []),
        active,
      )),
)

pub drop-IsCrew : (id : String) (db : Db) → IsCrew db → IsCrew (drop_room id db)
unfolding drop_room IsCrew
drop-IsCrew id db (ids, aliases, owners) = (
  λ i. omega (
    arith,
    ids i,
    sum_of-keep-le (λ r. str_eq r.id i) (λ r. not (str_eq r.id id)) (λ _. 1) db.crew_rooms,
  ),
  λ digest. omega (
    arith,
    aliases digest,
    sum_of-keep-le (λ r. compare_digest r.alias_digest digest) (λ r. not (str_eq r.id id)) (λ _. 1)
        db.crew_rooms,
  ),
  all-keep (is_led db.crew_devices) (is_led (keep (λ d. not (str_eq d.room_id id)) db.crew_devices))
      (λ r. not (str_eq r.id id)) db.crew_rooms
      (λ r other led.
        any-keep (active_at r.id r.owner_device_digest) (λ d. not (str_eq d.room_id id))
          db.crew_devices
          (λ d here. ground (arith, eq_iff d.room_id r.id, eq_iff r.id id, eq_iff d.room_id id))
          led)
      owners,
)

write_device-rooms :
    (found : Option CrewRoomDevice) (device : CrewRoomDevice) (db : Db)
    → (write_device found device db).crew_rooms ≡ db.crew_rooms
unfolding write_device add_device save_device
write_device-rooms none device db = refl
write_device-rooms (some old) device db = refl

-- A device that joins changes no room.
pub admit_device-rooms :
    (device : CrewRoomDevice) (db : Db) → (admit_device device db).crew_rooms ≡ db.crew_rooms
unfolding admit_device
admit_device-rooms device db =
    write_device-rooms (find (device_at device.room_id device.device_digest) db.crew_devices) device
      db

pub admit-IsCrew :
    (device : CrewRoomDevice) (db : Db)
    → device.revoked_at ≡ none
    → IsCrew db
    → IsCrew (admit_device device db)
unfolding IsCrew
admit-IsCrew device db n (ids, aliases, owners) =
    let rooms = admit_device-rooms device db in
    (
      λ id. rw rooms (ids id),
      λ digest. rw rooms (aliases digest),
      rw rooms (
          all_mono (is_led db.crew_devices) (is_led (admit_device device db).crew_devices)
            db.crew_rooms (λ r. admit_device-is_led device db r n) owners),
    )
