-- ===== src/Crew/Revoked.antt =====
-- A device after its revocation: `revoke_crew_room_device` and `_authorise_crew_room_device` of
-- apps/server/src/balloon_crumbs_server/service.py.
use balloon_crumbs.Prelude.{
  subst, ◌≡◌, refl, sym, ap, ◌∙◌, ℕ, ◌≤◌, String, Bool, true, false, Option, none, some, List, [],
  ◌∷◌, arith, eq_iff, find, count_of,
}
use balloon_crumbs.Result.{ok, reject, >>=-invert, ok-injective}
use balloon_crumbs.Models.{CrewRoom, CrewRoomDevice, Db}
use balloon_crumbs.Text.{compare_digest}
use balloon_crumbs.Env.{Env}
use balloon_crumbs.Crew.Tables.{
  find_alias, find_room, put_room, put_device, device_at, active_at, seen, updated, save_device,
  save_room,
}
use balloon_crumbs.Crew.Records.{
  normalise_crew_room_alias, crew_room_alias_digest, crew_room_device_digest,
}
use balloon_crumbs.Crew.Access.{authorise_crew_room_device}
use balloon_crumbs.Crew.Rows.{owner_stays, revocable, active_device}
use balloon_crumbs.Crew.Authorised.{
  IsAuthorised, authorise_crew_room_device-IsAuthorised, authorise_crew_room_device-digest,
  reject-ok, or_raise-ok,
}
use balloon_crumbs.Crew.Counts.{find-true, find-count}
use balloon_crumbs.Crew.Owners.{compare_digest-sym, same_key, key_same, compare_digest_sound}
use balloon_crumbs.Crew.Keeps.{as_device-invert, found_room}
use balloon_crumbs.Crew.Invariant.{IsCrew}
use balloon_crumbs.Crew.Handler.{revoke_device, Caller, revoke_crew_room_device}
use balloon_crumbs.Effect.Inversion.{continue-invert}

pub some-injective : {A : Type 0} {a b : A} → ◌≡◌ {A = Option A} (some a) (some b) → a ≡ b
some-injective e = cc

none≢some : {A : Type 0} {a : A} → ¬ (◌≡◌ {A = Option A} none (some a))
none≢some e = cc

-- Writing a room back under the alias that it has, the alias finds the same room.
put_room-find_alias :
    (alias : List ℕ) (now : ℕ) (rooms : List CrewRoom) (room found : CrewRoom)
    → find_alias alias rooms ≡ some room
    → find_room room.id rooms ≡ some room
    → find_alias alias (put_room (updated now room) rooms) ≡ some found
    → found.id ≡ room.id
unfolding put_room
put_room-find_alias alias now [] room found h k f = cc
put_room-find_alias alias now (r ∷ rooms) room found h k f = ground (
  arith,
  put_room-find_alias alias now rooms room found,
  find-true (λ r. compare_digest r.alias_digest alias) rooms room,
  eq_iff room.id room.id,
)

put_device-other :
    (id : String) (digest : List ℕ) (device : CrewRoomDevice) (devices : List CrewRoomDevice)
    → device_at id digest device ≡ false
    → find (device_at id digest) (put_device device devices) ≡ find (device_at id digest) devices
unfolding put_device
put_device-other id digest device [] h = refl
put_device-other id digest device (d ∷ devices) h =
    ground (arith, put_device-other id digest device devices, same_key id digest device d)

put_device-same :
    (id : String) (digest : List ℕ) (device old : CrewRoomDevice) (devices : List CrewRoomDevice)
    → device_at id digest device ≡ true
    → find (device_at id digest) devices ≡ some old
    → find (device_at id digest) (put_device device devices) ≡ some device
unfolding put_device
put_device-same id digest device old [] h f = cc
put_device-same id digest device old (d ∷ devices) h f =
    ground (arith, put_device-same id digest device old devices, key_same id digest device d)

-- the primary key of the devices: a room and a digest have one row at most
abbrev pub HasDeviceKeys : Db → Type 0
HasDeviceKeys db =
    (id : String) (digest : List ℕ) → count_of (device_at id digest) db.crew_devices ≤ 1

-- Where a key has one row at most, an active row with the key is the row of the key.
active_find :
    (id : String) (digest : List ℕ) (devices : List CrewRoomDevice) (target : CrewRoomDevice)
    → count_of (device_at id digest) devices ≤ 1
    → find (active_at id digest) devices ≡ some target
    → find (device_at id digest) devices ≡ some target
active_find id digest [] target u h = cc
active_find id digest (d ∷ devices) target u h = ground (
  arith,
  active_find id digest devices target,
  find-count (active_at id digest) (device_at id digest) devices target,
  find-true (active_at id digest) devices target,
)

module _ (env : Env) where
  after-row :
      (now : ℕ) (db : Db) (room : CrewRoom) (device target : CrewRoomDevice) (digest : List ℕ)
      → HasDeviceKeys db
      → compare_digest room.owner_device_digest device.device_digest ≡ true
      → compare_digest digest room.owner_device_digest ≡ false
      → find (active_at room.id digest) db.crew_devices ≡ some target
      → find (device_at room.id digest) (
          put_device
            (seen now device)
            (put_device (record target { revoked_at = some now }) db.crew_devices))
        ≡ some (record target { revoked_at = some now })
  after-row now db room device target digest keyed owner other active =
      let revoked = record target { revoked_at = some now } in
      let own : device.device_digest ≡ room.owner_device_digest =
        sym (compare_digest_sound room.owner_device_digest device.device_digest owner) in
      let apart : compare_digest device.device_digest digest ≡ false =
        compare_digest-sym device.device_digest digest
        ∙ subst (λ d. compare_digest digest d ≡ false) (sym own) other in
      let here : active_at room.id digest target ≡ true =
        find-true (active_at room.id digest) db.crew_devices target active in
      put_device-other room.id digest (seen now device) (put_device revoked db.crew_devices)
        (ground (arith, apart))
      ∙ put_device-same room.id digest revoked target db.crew_devices (ground (arith, here))
          (active_find room.id digest db.crew_devices target (keyed room.id digest) active)

  refused-after :
      (alias device_id credential : String) (owner_required : Bool) (now : ℕ) (db : Db)
      (room : CrewRoom) (device target : CrewRoomDevice) (digest : List ℕ)
      (found : CrewRoom × CrewRoomDevice)
      → IsCrew db
      → HasDeviceKeys db
      → IsAuthorised env alias true db room device
      → crew_room_device_digest env room.id device_id ≡ ok digest
      → compare_digest digest room.owner_device_digest ≡ false
      → find (active_at room.id digest) db.crew_devices ≡ some target
      → ¬ (
          authorise_crew_room_device env alias device_id credential owner_required (
            save_room (updated now room) (
              save_device
                (seen now device)
                (save_device (record target { revoked_at = some now }) db)))
          ≡ ok found)
  unfolding save_room save_device
  refused-after alias device_id credential owner_required now db room device target digest found
        crew keyed passed known other active h =
      let (named, here, current, owner) = passed in
      let db' = save_room (updated now room) (
        save_device (seen now device) (save_device (record target { revoked_at = some now }) db)) in
      let (named', here', current', _) =
        authorise_crew_room_device-IsAuthorised env alias device_id credential owner_required db'
          found.0 found.1 h in
      let same_room : found.0.id ≡ room.id =
        put_room-find_alias (crew_room_alias_digest env alias) now db.crew_rooms room found.0 named
          (found_room env alias db room named crew) named' in
      let key : digest ≡ found.1.device_digest = ok-injective (
        sym known
        ∙ subst (λ x. crew_room_device_digest env x device_id ≡ ok found.1.device_digest) same_room
            (authorise_crew_room_device-digest env alias device_id credential owner_required db'
              found.0 found.1 h)) in
      let row = after-row now db room device target digest keyed owner other active in
      let revoked : found.1 ≡ record target { revoked_at = some now } = some-injective (
        sym here'
        ∙ (subst
            (λ x.
              find (device_at x found.1.device_digest) db'.crew_devices
              ≡ some (record target { revoked_at = some now }))
            (sym same_room)
            (subst
              (λ x.
                find (device_at room.id x) db'.crew_devices
                ≡ some (record target { revoked_at = some now }))
              key row))) in
      none≢some (sym current' ∙ ap (λ d. d.revoked_at) revoked)

  -- After an owner has revoked a device, no credential authorises it, where the rooms are led and a
  -- room and a digest have one device at most.
  pub revoke_crew_room_device-locks_out :
      (caller : Caller) (target_device_id credential alias : String) (owner_required : Bool)
      (now : ℕ) (db db' : Db) (found : CrewRoom × CrewRoomDevice)
      → IsCrew db
      → HasDeviceKeys db
      → revoke_crew_room_device env caller target_device_id now db ≡ (ok tt, db')
      → normalise_crew_room_alias env caller.alias ≡ ok alias
      → ¬ (
          authorise_crew_room_device env alias target_device_id credential owner_required db'
          ≡ ok found)
  unfolding revoke_crew_room_device revoke_device revocable active_device
  revoke_crew_room_device-locks_out caller target_device_id credential alias owner_required now db
        db' found crew keyed h n refused =
      as_device-invert env caller true
        (λ a room device. revoke_device env target_device_id now room device) db db' tt h
        (λ alias1 room device n1 may h1.
          continue-invert (revocable env room target_device_id db) _ db db' tt h1 (λ target can h2.
            >>=-invert (crew_room_device_digest env room.id target_device_id) _ can
              (λ digest known can1.
                >>=-invert (reject (compare_digest digest room.owner_device_digest) owner_stays) _
                  can1
                  (λ u other can2.
                    refused-after alias target_device_id credential owner_required now db room
                      device target digest found crew keyed
                      (subst (λ x. IsAuthorised env x true db room device)
                        (ok-injective (sym n1 ∙ n))
                        (authorise_crew_room_device-IsAuthorised env alias1 caller.device_id
                          caller.credential true db room device may))
                      known (reject-ok _ _ u other) (or_raise-ok _ _ _ can2)
                      (subst
                        (λ s.
                          authorise_crew_room_device env alias target_device_id credential
                            owner_required s
                          ≡ ok found)
                        (sym (ap (λ p. p.1) h2)) refused)))))
