-- ===== src/Crew/Refused.antt =====
-- The calls of a device after its revocation
-- (apps/server/src/balloon_crumbs_server/service.py, 710-1065).
use balloon_crumbs.Prelude.{
  ◌≡◌, refl, inl, inr, subst, sym, ap, ◌∙◌, ℕ, String, Bool, true, false, Option, none, some,
}
use balloon_crumbs.Result.{Result, ok, err, Result-cases}
use balloon_crumbs.Effect.{Exec, continue}
use balloon_crumbs.Models.{CrewRoom, CrewRoomDevice, Db}
use balloon_crumbs.Env.{Env}
use balloon_crumbs.Crew.Records.{normalise_crew_room_alias, validate_crew_room_operation}
use balloon_crumbs.Crew.Access.{authorise_crew_room_device}
use balloon_crumbs.Crew.Invariant.{IsCrew}
use balloon_crumbs.Crew.Handler.{
  Caller, as_device, authorised, create_crew_room, open_crew_room, join_crew_room,
  start_crew_room_operation, list_crew_room_devices, rename_crew_room, transfer_crew_room,
  revoke_crew_room_device, delete_crew_room,
}
use balloon_crumbs.Crew.Calls.{
  CrewCall, create, visit, join, start, list_devices, rename, transfer, revoke, delete, crew_step,
}
use balloon_crumbs.Crew.Revoked.{HasDeviceKeys, some-injective, revoke_crew_room_device-locks_out}

-- who a call says that it is from, where it shows a credential of a room
abbrev pub caller_of : CrewCall → Option Caller
caller_of (create entropy caller name operation bearer) = none
caller_of (visit caller) = some caller
caller_of (join entropy alias token device name) = none
caller_of (start entropy caller operation bearer) = some caller
caller_of (list_devices caller) = some caller
caller_of (rename entropy caller alias) = some caller
caller_of (transfer caller target) = some caller
caller_of (revoke caller target) = some caller
caller_of (delete caller) = some caller

abbrev pub is_ok : {A : Type 0} → Result A → Bool
is_ok (ok a) = true
is_ok (err e) = false

abbrev IsRefused : {A : Type 0} → Exec Db A → Db → Type 0
IsRefused m db = (is_ok (m db).0 ≡ false) × ((m db).1 ≡ db)

continue-IsRefused :
    {A B : Type 0} (r : Result A) (f : A → Exec Db B) (db : Db)
    → ((a : A) → r ≡ ok a → IsRefused (f a) db)
    → IsRefused (continue r f) db
continue-IsRefused (ok a) f db k = k a refl
continue-IsRefused (err e) f db k = (refl, refl)

module _ (env : Env) where
  -- whether a call returns
  unfoldable pub crew_answers : CrewCall → ℕ → Db → Bool
  crew_answers (create entropy caller name operation bearer) now db =
      is_ok (create_crew_room env entropy caller name operation bearer now db).0
  crew_answers (visit caller) now db = is_ok (open_crew_room env caller now db).0
  crew_answers (join entropy alias token device name) now db =
      is_ok (join_crew_room env entropy alias token device name now db).0
  crew_answers (start entropy caller operation bearer) now db =
      is_ok (start_crew_room_operation env entropy caller operation bearer now db).0
  crew_answers (list_devices caller) now db = is_ok (list_crew_room_devices env caller now db).0
  crew_answers (rename entropy caller alias) now db =
      is_ok (rename_crew_room env entropy caller alias now db).0
  crew_answers (transfer caller target) now db =
      is_ok (transfer_crew_room env caller target now db).0
  crew_answers (revoke caller target) now db =
      is_ok (revoke_crew_room_device env caller target now db).0
  crew_answers (delete caller) now db = is_ok (delete_crew_room env caller db).0

  -- no credential authorises the device for the room with the alias
  abbrev IsLockedOut : String → String → Db → Type 0
  IsLockedOut alias device_id db =
      (credential : String) (owner_required : Bool) (found : CrewRoom × CrewRoomDevice)
      → ¬ (authorise_crew_room_device env alias device_id credential owner_required db ≡ ok found)

  module _ (alias : String) (caller : Caller) (db : Db)
      (locked : IsLockedOut alias caller.device_id db)
      (n : normalise_crew_room_alias env caller.alias ≡ ok alias) where
    as_device-IsRefused :
        {A : Type 0} (owner_required : Bool) (body : String → CrewRoom → CrewRoomDevice → Exec Db A)
        → IsRefused (as_device env caller owner_required body) db
    unfolding as_device authorised
    as_device-IsRefused owner_required body =
        rw n
          (elim (Result-cases (
            authorise_crew_room_device env alias caller.device_id caller.credential owner_required
              db)) [
                | inl (found, passed) ↦
                    absurd (locked caller.credential owner_required found passed)
                | inr (e, refused) ↦ rw refused (refl, refl)
              ])

    -- the checks that two of the operations make before they look at the caller
    after-IsRefused :
        {A B : Type 0} (checked : Result B) (owner_required : Bool)
        (body : B → String → CrewRoom → CrewRoomDevice → Exec Db A)
        → IsRefused (continue checked (λ b. as_device env caller owner_required (body b))) db
    after-IsRefused checked owner_required body =
        continue-IsRefused checked (λ b. as_device env caller owner_required (body b)) db
          (λ b _. as_device-IsRefused owner_required (body b))

  caller-same :
      (alias device_id : String) (c caller : Caller) (db : Db)
      → IsLockedOut alias device_id db
      → ◌≡◌ {A = Option Caller} (some c) (some caller)
      → caller.device_id ≡ device_id
      → normalise_crew_room_alias env caller.alias ≡ ok alias
      → IsLockedOut alias c.device_id db × (normalise_crew_room_alias env c.alias ≡ ok alias)
  caller-same alias device_id c caller db locked is id n =
      let same : c ≡ caller = some-injective is in
      (
        subst (λ d. IsLockedOut alias d db) (sym (ap (λ x. x.device_id) same ∙ id)) locked,
        ap (λ x. normalise_crew_room_alias env x.alias) same ∙ n,
      )

  -- A device that is locked out is refused in every call that shows a credential of the room.
  locked-IsRefused :
      (alias device_id : String) (call : CrewCall) (caller : Caller) (now : ℕ) (db : Db)
      → IsLockedOut alias device_id db
      → caller_of call ≡ some caller
      → caller.device_id ≡ device_id
      → normalise_crew_room_alias env caller.alias ≡ ok alias
      → (crew_answers call now db ≡ false) × (crew_step env call now db ≡ db)
  unfolding crew_answers crew_step open_crew_room start_crew_room_operation list_crew_room_devices
      rename_crew_room transfer_crew_room revoke_crew_room_device delete_crew_room
  locked-IsRefused alias device_id (create entropy c name operation bearer) caller now db locked is
        id n =
      cc
  locked-IsRefused alias device_id (join entropy a token device name) caller now db locked is id n =
      cc
  locked-IsRefused alias device_id (visit c) caller now db locked is id n =
      let (l, m) = caller-same alias device_id c caller db locked is id n in
      as_device-IsRefused alias c db l m false _
  locked-IsRefused alias device_id (start entropy c operation bearer) caller now db locked is id n =
      let (l, m) = caller-same alias device_id c caller db locked is id n in
      continue-IsRefused (normalise_crew_room_alias env c.alias) _ db (λ _ _.
        after-IsRefused alias c db l m (validate_crew_room_operation env operation bearer) true _)
  locked-IsRefused alias device_id (list_devices c) caller now db locked is id n =
      let (l, m) = caller-same alias device_id c caller db locked is id n in
      as_device-IsRefused alias c db l m true _
  locked-IsRefused alias device_id (rename entropy c new) caller now db locked is id n =
      let (l, m) = caller-same alias device_id c caller db locked is id n in
      continue-IsRefused (normalise_crew_room_alias env c.alias) _ db
        (λ _ _. after-IsRefused alias c db l m (normalise_crew_room_alias env new) true _)
  locked-IsRefused alias device_id (transfer c target) caller now db locked is id n =
      let (l, m) = caller-same alias device_id c caller db locked is id n in
      as_device-IsRefused alias c db l m true _
  locked-IsRefused alias device_id (revoke c target) caller now db locked is id n =
      let (l, m) = caller-same alias device_id c caller db locked is id n in
      as_device-IsRefused alias c db l m true _
  locked-IsRefused alias device_id (delete c) caller now db locked is id n =
      let (l, m) = caller-same alias device_id c caller db locked is id n in
      as_device-IsRefused alias c db l m true _

  -- After an owner has revoked a device, every call that the device then makes for the room by its
  -- alias is refused and changes nothing, whatever credential it shows, where the rooms are led
  -- and a room and a digest have one device at most. The calls are all those that show a
  -- credential, so not a join by an invitation.
  pub revoke_crew_room_device-refuses :
      (owner caller : Caller) (target_device_id alias : String) (call : CrewCall) (now later : ℕ)
      (db db' : Db)
      → IsCrew db
      → HasDeviceKeys db
      → revoke_crew_room_device env owner target_device_id now db ≡ (ok tt, db')
      → normalise_crew_room_alias env owner.alias ≡ ok alias
      → caller_of call ≡ some caller
      → caller.device_id ≡ target_device_id
      → normalise_crew_room_alias env caller.alias ≡ ok alias
      → (crew_answers call later db' ≡ false) × (crew_step env call later db' ≡ db')
  revoke_crew_room_device-refuses owner caller target_device_id alias call now later db db' crew
        keyed h n is id m =
      locked-IsRefused alias target_device_id call caller later db'
        (λ credential owner_required found.
          revoke_crew_room_device-locks_out env owner target_device_id credential alias
            owner_required now db db' found crew keyed h n)
        is id m
