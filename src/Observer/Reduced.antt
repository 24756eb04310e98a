-- ===== src/Observer/Reduced.antt =====
-- What a grant of reduced precision stores (apps/server/src/balloon_crumbs_server/observer.py,
-- `_reduce_snapshot_precision`): the rider, the participants and the route.
use balloon_crumbs.Prelude.{◌≡◌, true, false, Option, none, some}
use balloon_crumbs.Result.{Result}
use balloon_crumbs.Json.{Value, array, object, Items, nil, cons, Fields, get, as_object}
use balloon_crumbs.Observer.Snapshot.{Numbers}
use balloon_crumbs.Observer.Precision.{IsReduced}

-- Two lists of values are related one by one.
pub data Pairwise (R : Value → Value → Type 0) : Items → Items → Type 0 where
  nothing : Pairwise R nil nil
  first :
      {v w : Value} {vs ws : Items} → R v w → Pairwise R vs ws → Pairwise R (cons v vs) (cons w ws)

abbrev pub as_array : Value → Option Items
as_array (array vs) = some vs
as_array _ = none

-- the points of a route that has a list of them
abbrev pub points_of : Value → Option Items
points_of (object route) = as_array (get "points" route)
points_of _ = none

pub data IsParticipantReduced (numbers : Numbers) (v w : Value) : Type 0 where
  no_participant : as_object v ≡ none → w ≡ v → IsParticipantReduced numbers v w
  participant :
      (fs fs' : Fields)
      → v ≡ object fs
      → w ≡ object fs'
      → IsReduced numbers true (get "position" fs) (get "position" fs')
      → IsParticipantReduced numbers v w

pub data AreReduced (numbers : Numbers) (v w : Value) : Type 0 where
  no_list : as_array v ≡ none → w ≡ v → AreReduced numbers v w
  listed :
      (vs ws : Items)
      → v ≡ array vs
      → w ≡ array ws
      → Pairwise (IsParticipantReduced numbers) vs ws
      → AreReduced numbers v w

pub data IsRouteReduced (numbers : Numbers) (v w : Value) : Type 0 where
  no_points : points_of v ≡ none → w ≡ v → IsRouteReduced numbers v w
  routed :
      (vs ws : Items)
      → points_of v ≡ some vs
      → points_of w ≡ some ws
      → Pairwise (IsReduced numbers false) vs ws
      → IsRouteReduced numbers v w

module _ (numbers : Numbers) where
  -- what the route becomes, and what stays
  abbrev RouteStep : Value → Fields → Fields → Type 0
  RouteStep v fs r =
      IsRouteReduced numbers v (get "route" r)
      × (get "position" r ≡ get "position" fs)
      × (get "participants" r ≡ get "participants" fs)

-- The rider's position, those of the participants and the points of the route are reduced, each
-- from the one that it was.
pub record IsSnapshotReduced (numbers : Numbers) (snapshot r : Fields) : Type 0 where
  pub position : IsReduced numbers true (get "position" snapshot) (get "position" r)
  pub participants : AreReduced numbers (get "participants" snapshot) (get "participants" r)
  pub route : IsRouteReduced numbers (get "route" snapshot) (get "route" r)
