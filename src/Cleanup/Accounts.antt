-- ===== src/Cleanup/Accounts.antt =====
-- The counters of the rides across a cleanup
-- (apps/server/src/balloon_crumbs_server/service.py, `purge_expired`).
use balloon_crumbs.Prelude.{
  subst, ◌≡◌, refl, ap, inl, inr, ℕ, ◌-◌, String, Bool, true, not, Option, none, some, List, [],
  ◌∷◌, arith, str_eq, eq_iff, ltb, if◌then◌else◌, Bool-cases, Option-cases, keep, sum_of,
  sum_of-keep, count_of,
}
use balloon_crumbs.Models.{Ride, StoredEvent, Db, is_expired, find_ride}
use balloon_crumbs.Models.Rides.{find_ride-id}
use balloon_crumbs.Sync.Store.{expired_event, event_of, purge_ride}
use balloon_crumbs.Sync.Usage.{size, count_in, bytes_in}
use balloon_crumbs.Sync.Accounts.{IsAccounted, ride_count, ride_bytes}
use balloon_crumbs.Cleanup.{is_kept, discount, purge_expired}

-- every identity is that of one ride, as the primary key makes it
abbrev pub IsKeyed : List Ride → Type 0
IsKeyed [] = Unit
IsKeyed (r ∷ rides) = (find_ride r.id rides ≡ none) × IsKeyed rides

abbrev purge_found : ℕ → List StoredEvent → Option Ride → Option Ride
purge_found now events none = none
purge_found now events (some r) =
    if ltb now r.delete_after then some (purge_ride now r events) else none

abbrev is_found_kept : ℕ → Option Ride → Bool
is_found_kept now none = true
is_found_kept now (some r) = ltb now r.delete_after

find_absent :
    (now : ℕ) (events : List StoredEvent) (rides : List Ride) (id : String)
    → find_ride id rides ≡ none
    → (find_ride id (keep (λ r. ltb now r.delete_after) (discount now events rides)) ≡ none)
      × (is_kept now rides id ≡ true)
unfolding discount purge_ride
find_absent now events [] id h = (refl, refl)
find_absent now events (r ∷ rides) id h =
    let (a, b) = find_absent now events rides id (ground (arith, h)) in
    (ground (arith, a, h), ground (arith, b, h))

find_purged :
    (now : ℕ) (events : List StoredEvent) (rides : List Ride) (id : String)
    → IsKeyed rides
    → (find_ride id (keep (λ r. ltb now r.delete_after) (discount now events rides))
        ≡ purge_found now events (find_ride id rides))
      × (is_kept now rides id ≡ is_found_kept now (find_ride id rides))
unfolding discount purge_ride
find_purged now events [] id h = (refl, refl)
find_purged now events (r ∷ rides) id (alone, h) =
    let (a, b) = find_purged now events rides id h in
    let (c, d) = find_absent now events rides r.id alone in
    elim (Bool-cases (str_eq r.id id)) [
      | inl y ↦
          let same = (eq_iff r.id id).0 y in
          let c' : find_ride id (keep (λ x. ltb now x.delete_after) (discount now events rides))
              ≡ none =
            subst
              (λ (z : String).
                find_ride z (keep (λ x. ltb now x.delete_after) (discount now events rides)) ≡ none)
              same c in
          let d' : is_kept now rides id ≡ true =
            subst (λ (z : String). is_kept now rides z ≡ true) same d in
          (ground (arith, y, c'), ground (arith, y, d'))
      | inr n ↦ (ground (arith, n, a), ground (arith, n, b))
    ]

module _ (kept : String → Bool) (f : StoredEvent → ℕ) (id : String) where
  sum_of-referenced :
      (events : List StoredEvent)
      → sum_of (event_of id) f (keep (λ e. kept e.ride_id) events)
        ≡ (if kept id then sum_of (event_of id) f events else 0)
  sum_of-referenced [] = ground arith
  sum_of-referenced (e ∷ events) = elim (Bool-cases (str_eq e.ride_id id)) [
    | inl y ↦
        let same = ap kept ((eq_iff e.ride_id id).0 y) in
        ground (arith, y, same, sum_of-referenced events)
    | inr n ↦ ground (arith, n, sum_of-referenced events)
  ]

-- What is left of a ride's events: none if the ride is deleted, else those that have not expired.
sum_of-purged :
    (f : StoredEvent → ℕ) (now : ℕ) (rides : List Ride) (id : String) (events : List StoredEvent)
    → sum_of (event_of id) f (
        keep
          (λ e. is_kept now rides e.ride_id)
          (keep (λ e. not (is_expired now e.expires_at)) events))
      ≡ (if is_kept now rides id
          then sum_of (event_of id) f events - sum_of (expired_event id now) f events
          else 0)
sum_of-purged f now rides id events =
    rw
      (sum_of-referenced (is_kept now rides) f id
        (keep (λ e. not (is_expired now e.expires_at)) events))
      (ground (arith, sum_of-keep (event_of id) (λ e. is_expired now e.expires_at) f events))

purged-count :
    (now : ℕ) (r : Ride) (events : List StoredEvent) (id : String)
    → r.id ≡ id
    → r.stored_event_count ≡ count_in id events
    → ride_count (purge_found now events (some r)) ≡ (
        if ltb now r.delete_after
        then count_in id events - count_of (expired_event id now) events
        else 0)
unfolding purge_ride
purged-count now r events id same h = elim (Bool-cases (ltb now r.delete_after)) [
  | inl y ↦ rw (y, same, h) refl
  | inr n ↦ rw n refl
]

purged-bytes :
    (now : ℕ) (r : Ride) (events : List StoredEvent) (id : String)
    → r.id ≡ id
    → r.stored_event_bytes ≡ bytes_in id events
    → ride_bytes (purge_found now events (some r)) ≡ (
        if ltb now r.delete_after
        then bytes_in id events - sum_of (expired_event id now) size events
        else 0)
unfolding purge_ride
purged-bytes now r events id same h = elim (Bool-cases (ltb now r.delete_after)) [
  | inl y ↦ rw (y, same, h) refl
  | inr n ↦ rw n refl
]

-- The cleanup keeps every ride's counters equal to the number and the bytes of its stored events,
-- if no two rides have the same identity.
pub purge_expired-IsAccounted :
    (now : ℕ) (db : Db)
    → IsKeyed db.rides
    → IsAccounted db.rides db.events
    → let db' = (purge_expired now db).1 in IsAccounted db'.rides db'.events
unfolding purge_expired purge_ride
purge_expired-IsAccounted now db keyed h = record {
  counted = λ id.
      let (found, referenced) = find_purged now db.events db.rides id keyed in
      rw (found, sum_of-purged (λ _. 1) now db.rides id db.events, referenced)
        (elim (Option-cases (find_ride id db.rides)) [
          | inl absent ↦ rw absent (
              omega
                (arith, subst (λ o. ride_count o ≡ count_in id db.events) absent (h.counted id)))
          | inr (r, there) ↦ rw there (
              purged-count now r db.events id (find_ride-id db.rides id r there) (
                subst (λ o. ride_count o ≡ sum_of (event_of id) (λ _. 1) db.events) there
                  (h.counted id)))
        ]);
  sized = λ id.
      let (found, referenced) = find_purged now db.events db.rides id keyed in
      rw (found, sum_of-purged size now db.rides id db.events, referenced)
        (elim (Option-cases (find_ride id db.rides)) [
          | inl absent ↦
              rw absent (
                omega
                  (arith, subst (λ o. ride_bytes o ≡ bytes_in id db.events) absent (h.sized id)))
          | inr (r, there) ↦ rw there (
              purged-bytes now r db.events id (find_ride-id db.rides id r there) (
                subst (λ o. ride_bytes o ≡ sum_of (event_of id) size db.events) there (h.sized id)))
        ]);
}
