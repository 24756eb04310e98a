-- ===== src/Crew/Owners.antt =====
-- The owners of the crew rooms among the devices, under the writes of
-- apps/server/src/balloon_crumbs_server/service.py.
use balloon_crumbs.Prelude.{
  subst, ◌≡◌, refl, sym, ℕ, ◌≤◌, String, Bool, true, false, ◌&&◌, ◌||◌, List, [], ◌∷◌, ◌++◌, arith,
  str_eq, eq_iff, ==_iff, is_some, keep, all, any,
}
use balloon_crumbs.Models.{CrewRoom, CrewRoomDevice}
use balloon_crumbs.Text.{compare_digest}
use balloon_crumbs.Crew.Tables.{put_room, put_device, device_at, active_at}
use balloon_crumbs.Crew.Counts.{with_id}

pub compare_digest_sound : (xs ys : List ℕ) → compare_digest xs ys ≡ true → xs ≡ ys
unfolding compare_digest
compare_digest_sound [] [] h = refl
compare_digest_sound [] (y ∷ ys) h = cc
compare_digest_sound (x ∷ xs) [] h = cc
compare_digest_sound (x ∷ xs) (y ∷ ys) h = ground (arith, compare_digest_sound xs ys, ==_iff x y)

pub compare_digest_refl : (xs : List ℕ) → compare_digest xs xs ≡ true
unfolding compare_digest
compare_digest_refl [] = refl
compare_digest_refl (x ∷ xs) = ground (arith, compare_digest_refl xs, ==_iff x x)

pub compare_digest-sym : (xs ys : List ℕ) → compare_digest xs ys ≡ compare_digest ys xs
unfolding compare_digest
compare_digest-sym [] [] = refl
compare_digest-sym [] (y ∷ ys) = refl
compare_digest-sym (x ∷ xs) [] = refl
compare_digest-sym (x ∷ xs) (y ∷ ys) =
    ground (arith, compare_digest-sym xs ys, ==_iff x y, ==_iff y x)

-- a room whose owner is a device of it that is not revoked
abbrev pub is_led : List CrewRoomDevice → CrewRoom → Bool
is_led devices r = any (active_at r.id r.owner_device_digest) devices

module _ {A : Type 0} where
  pub any-append : (p : A → Bool) (xs ys : List A) → any p (xs ++ ys) ≡ (any p xs || any p ys)
  any-append p [] ys = refl
  any-append p (x ∷ xs) ys = ground (arith, any-append p xs ys)

  pub all-append : (p : A → Bool) (xs ys : List A) → all p (xs ++ ys) ≡ (all p xs && all p ys)
  all-append p [] ys = refl
  all-append p (x ∷ xs) ys = ground (arith, all-append p xs ys)

  pub all_mono :
      (p q : A → Bool) (xs : List A)
      → ((x : A) → p x ≡ true → q x ≡ true)
      → all p xs ≡ true
      → all q xs ≡ true
  all_mono p q [] k h = refl
  all_mono p q (x ∷ xs) k h = ground (arith, all_mono p q xs k, k x)

  pub any-keep :
      (p q : A → Bool) (xs : List A)
      → ((x : A) → p x ≡ true → q x ≡ true)
      → any p xs ≡ true
      → any p (keep q xs) ≡ true
  any-keep p q [] k h = h
  any-keep p q (x ∷ xs) k h = ground (arith, any-keep p q xs k, k x)

-- Rows that hold a property still hold it after a deletion that keeps it for what is left.
pub all-keep :
    {A : Type 0} (p q keeps : A → Bool) (xs : List A)
    → ((x : A) → keeps x ≡ true → p x ≡ true → q x ≡ true)
    → all p xs ≡ true
    → all q (keep keeps xs) ≡ true
all-keep p q keeps [] k h = refl
all-keep p q keeps (x ∷ xs) k h = ground (arith, all-keep p q keeps xs k, k x)

module _ (p q : CrewRoom → Bool) (room : CrewRoom)
    (others : (r : CrewRoom) → str_eq r.id room.id ≡ false → p r ≡ true → q r ≡ true) where
  all-others :
      (rooms : List CrewRoom) → with_id room.id rooms ≡ 0 → all p rooms ≡ true → all q rooms ≡ true
  all-others [] z h = refl
  all-others (r ∷ rooms) z h = ground (arith, all-others rooms, others r)

  -- Writing a room back changes the property of the other rooms only as `others` says.
  pub all-put_room :
      (rooms : List CrewRoom)
      → with_id room.id rooms ≤ 1
      → q room ≡ true
      → all p rooms ≡ true
      → all q (put_room room rooms) ≡ true
  unfolding put_room
  all-put_room [] u k h = refl
  all-put_room (r ∷ rooms) u k h = ground (arith, all-put_room rooms, all-others rooms, others r)

-- Two rows with the same key answer to the same identity and digest.
pub same_key :
    (id : String) (digest : List ℕ) (device d : CrewRoomDevice)
    → device_at device.room_id device.device_digest d ≡ true
    → device_at id digest d ≡ true
    → device_at id digest device ≡ true
same_key id digest device d h k =
    let rooms : d.room_id ≡ device.room_id = ground (arith, eq_iff d.room_id device.room_id) in
    let same : d.device_digest ≡ device.device_digest =
      compare_digest_sound d.device_digest device.device_digest (ground arith) in
    subst (λ x. str_eq x id && compare_digest device.device_digest digest ≡ true) rooms
      (subst (λ x. str_eq d.room_id id && compare_digest x digest ≡ true) same k)

pub key_same :
    (id : String) (digest : List ℕ) (device d : CrewRoomDevice)
    → device_at id digest device ≡ true
    → device_at id digest d ≡ true
    → device_at device.room_id device.device_digest d ≡ true
key_same id digest device d h k =
    let rooms : id ≡ device.room_id = ground (arith, eq_iff device.room_id id) in
    let same : digest ≡ device.device_digest =
      sym (compare_digest_sound device.device_digest digest (ground arith)) in
    subst (λ x. str_eq d.room_id x && compare_digest d.device_digest device.device_digest ≡ true)
      rooms (subst (λ x. str_eq d.room_id id && compare_digest d.device_digest x ≡ true) same k)

-- A device that is written back takes nobody's activity, unless it is revoked.
pub any-put_device :
    (id : String) (digest : List ℕ) (device : CrewRoomDevice) (devices : List CrewRoomDevice)
    → (device_at id digest device && is_some device.revoked_at) ≡ false
    → any (active_at id digest) devices ≡ true
    → any (active_at id digest) (put_device device devices) ≡ true
unfolding put_device
any-put_device id digest device [] k h = h
any-put_device id digest device (d ∷ devices) k h =
    ground (arith, any-put_device id digest device devices, same_key id digest device d)
