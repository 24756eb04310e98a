-- ===== src/Crew/Authorised.antt =====
-- What an authorised device of a crew room is: `_authorise_crew_room_device` of
-- apps/server/src/balloon_crumbs_server/service.py.
use balloon_crumbs.Prelude.{
  subst, ◌≡◌, refl, sym, ℕ, String, Bool, true, false, not, ◌||◌, Option, none, some, List, arith,
  is_some, find,
}
use balloon_crumbs.Result.{Fault, ok, reject, or_raise, >>=-invert, ok-injective}
use balloon_crumbs.Models.{CrewRoom, CrewRoomDevice, Db}
use balloon_crumbs.Text.{compare_digest, is_device_credential}
use balloon_crumbs.Env.{Env}
use balloon_crumbs.Crypto.{token_hash}
use balloon_crumbs.Crew.Records.{crew_room_alias_digest, crew_room_device_digest}
use balloon_crumbs.Crew.Tables.{find_alias, device_at}
use balloon_crumbs.Crew.Access.{authorise_crew_room_device, admits, unavailable}
use balloon_crumbs.Crew.Counts.{find-true}
use balloon_crumbs.Crew.Owners.{compare_digest_sound}

pub reject-ok : (b : Bool) (e : Fault) (x : Unit {0}) → reject b e ≡ ok x → b ≡ false
reject-ok true e x h = cc
reject-ok false e x h = refl

pub or_raise-ok : {A : Type 0} (o : Option A) (e : Fault) (a : A) → or_raise o e ≡ ok a → o ≡ some a
or_raise-ok none e a h = cc
or_raise-ok (some b) e a h = cc

-- the room with the alias, and a device of it that is not revoked
abbrev pub IsAuthorised : Env → String → Bool → Db → CrewRoom → CrewRoomDevice → Type 0
IsAuthorised env alias owner_required db room device =
    (find_alias (crew_room_alias_digest env alias) db.crew_rooms ≡ some room)
    × (find (device_at room.id device.device_digest) db.crew_devices ≡ some device)
    × (device.revoked_at ≡ none)
    × ((not owner_required || compare_digest room.owner_device_digest device.device_digest) ≡ true)

pub unset : {A : Type 0} (o : Option A) → is_some o ≡ false → o ≡ none
unset none h = refl
unset (some a) h = cc

admitted-IsAuthorised :
    (env : Env) (alias : String) (owner_required : Bool) (db : Db) (room : CrewRoom)
    (device : CrewRoomDevice) (digest hash : List ℕ)
    → find_alias (crew_room_alias_digest env alias) db.crew_rooms ≡ some room
    → find (device_at room.id digest) db.crew_devices ≡ some device
    → not (admits owner_required room device digest hash) ≡ false
    → IsAuthorised env alias owner_required db room device
unfolding admits
admitted-IsAuthorised env alias owner_required db room device digest hash found known passed =
    let here : device_at room.id digest device ≡ true =
      find-true (device_at room.id digest) db.crew_devices device known in
    let same : device.device_digest ≡ digest =
      compare_digest_sound device.device_digest digest (ground arith) in
    (
      found,
      subst (λ d. find (device_at room.id d) db.crew_devices ≡ some device) (sym same) known,
      unset device.revoked_at (ground arith),
      subst (λ d. (not owner_required || compare_digest room.owner_device_digest d) ≡ true)
          (sym same) (ground arith),
    )

-- An authorised device is a row of the room with the alias, is not revoked, and is the room's owner
-- where one is required.
pub authorise_crew_room_device-IsAuthorised :
    (env : Env) (alias device_id credential : String) (owner_required : Bool) (db : Db)
    (room : CrewRoom) (device : CrewRoomDevice)
    → authorise_crew_room_device env alias device_id credential owner_required db
      ≡ ok (room, device)
    → IsAuthorised env alias owner_required db room device
unfolding authorise_crew_room_device admits
authorise_crew_room_device-IsAuthorised env alias device_id credential owner_required db room device
      h =
    >>=-invert (reject (not (is_device_credential credential)) unavailable) _ h (λ _ _ h1.
      >>=-invert
        (or_raise (find_alias (crew_room_alias_digest env alias) db.crew_rooms) unavailable) _ h1
        (λ room1 r1 h2.
          >>=-invert (crew_room_device_digest env room1.id device_id) _ h2 (λ digest _ h3.
            >>=-invert (or_raise (find (device_at room1.id digest) db.crew_devices) unavailable) _
              h3
              (λ device1 d1 h4. >>=-invert (token_hash env credential) _ h4 (λ hash _ h5.
                >>=-invert
                  (reject (not (admits owner_required room1 device1 digest hash)) unavailable) _ h5
                  (λ u a1 h6.
                    subst (λ p. IsAuthorised env alias owner_required db p.0 p.1) (ok-injective h6)
                      (admitted-IsAuthorised env alias owner_required db room1 device1 digest hash
                        (or_raise-ok _ _ _ r1) (or_raise-ok _ _ _ d1) (reject-ok _ _ u a1))))))))

-- An authorised device is the one whose identity the caller gave.
pub authorise_crew_room_device-digest :
    (env : Env) (alias device_id credential : String) (owner_required : Bool) (db : Db)
    (room : CrewRoom) (device : CrewRoomDevice)
    → authorise_crew_room_device env alias device_id credential owner_required db
      ≡ ok (room, device)
    → crew_room_device_digest env room.id device_id ≡ ok device.device_digest
unfolding authorise_crew_room_device admits
authorise_crew_room_device-digest env alias device_id credential owner_required db room device h =
    >>=-invert (reject (not (is_device_credential credential)) unavailable) _ h (λ _ _ h1.
      >>=-invert
        (or_raise (find_alias (crew_room_alias_digest env alias) db.crew_rooms) unavailable) _ h1
        (λ room1 _ h2.
          >>=-invert (crew_room_device_digest env room1.id device_id) _ h2 (λ digest g h3.
            >>=-invert (or_raise (find (device_at room1.id digest) db.crew_devices) unavailable) _
              h3
              (λ device1 d1 h4. >>=-invert (token_hash env credential) _ h4 (λ hash _ h5.
                >>=-invert
                  (reject (not (admits owner_required room1 device1 digest hash)) unavailable) _ h5
                  (λ u _ h6.
                    let here : device_at room1.id digest device1 ≡ true =
                      find-true (device_at room1.id digest) db.crew_devices device1
                        (or_raise-ok _ _ _ d1) in
                    subst (λ p. crew_room_device_digest env p.0.id device_id ≡ ok p.1.device_digest)
                      (ok-injective h6)
                      (rw (compare_digest_sound device1.device_digest digest (ground arith))
                        g)))))))
