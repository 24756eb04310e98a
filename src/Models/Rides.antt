-- ===== src/Models/Rides.antt =====
-- The rides table as a map from identities (models.py, `Ride`).
use balloon_crumbs.Prelude.{
  ◌≡◌, String, true, none, some, List, [], ◌∷◌, ◌++◌, arith, str_eq, eq_iff, if◌then◌else◌, is_some,
}
use balloon_crumbs.Models.{Ride, find_ride, put_ride}

-- Writing back a stored ride changes the row of that ride alone.
pub find_ride-put_ride :
    (r : Ride) (rides : List Ride) (id : String)
    → is_some (find_ride r.id rides) ≡ true
    → find_ride id (put_ride r rides) ≡ (if str_eq r.id id then some r else find_ride id rides)
unfolding put_ride
find_ride-put_ride r [] id h = cc
find_ride-put_ride r (x ∷ rides) id h =
    ground (arith, find_ride-put_ride r rides id, eq_iff x.id r.id, eq_iff x.id id, eq_iff r.id id)

pub find_ride-append :
    (r : Ride) (rides : List Ride) (id : String)
    → find_ride r.id rides ≡ none
    → find_ride id (rides ++ r ∷ []) ≡ (if str_eq r.id id then some r else find_ride id rides)
find_ride-append r [] id h = ground arith
find_ride-append r (x ∷ rides) id h =
    ground (arith, find_ride-append r rides id, eq_iff x.id r.id, eq_iff x.id id, eq_iff r.id id)

pub find_ride-id :
    (rides : List Ride) (id : String) (r : Ride) → find_ride id rides ≡ some r → r.id ≡ id
find_ride-id [] id r h = cc
find_ride-id (x ∷ rides) id r h = ground (arith, find_ride-id rides id r, eq_iff x.id id)
