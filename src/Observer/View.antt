-- ===== src/Observer/View.antt =====
-- What an observer sees: `observer_snapshot` of apps/server/src/balloon_crumbs_server/observer.py.
use balloon_crumbs.Prelude.{
  ℕ, String, Bool, true, false, ◌||◌, Option, List, [], ◌∷◌, str_eq, ltb, if◌then◌else◌,
}
use balloon_crumbs.Json.{
  Value, null, text, array, object, Items, nil, cons, Fields, end, field, get, in_texts, is_text,
}
use balloon_crumbs.Result.{type_error, Result, ok, err, ◌>>=◌}
use balloon_crumbs.Models.{ObserverGrant}
use balloon_crumbs.Env.{Env}
use balloon_crumbs.Observer.Snapshot.{
  get_or, recorded_at, Freshness, unavailable, fresh, delayed, offline, freshness,
}

pub record ParticipantView : Type 0 where
  pub display_name : Value
  pub role : Value
  pub color : Value
  pub position : Value
  pub freshness : Freshness

pub record SnapshotView : Type 0 where
  pub protocol_version : ℕ
  pub scope : String
  pub precision : String
  pub label : String
  pub subject_name : Value
  pub ride_status : Value
  pub status_updated_at : Value
  pub freshness : Freshness
  pub server_time : ℕ
  pub expires_at : ℕ
  pub position : Value
  pub participants : List ParticipantView
  pub route : Value
  pub assistance : Value

abbrev pub scope_of : ObserverGrant → String
scope_of g = if str_eq g.scope "rider" || str_eq g.scope "group" then g.scope else "rider"

abbrev pub precision_of : ObserverGrant → String
precision_of g =
    if str_eq g.precision "reduced" || str_eq g.precision "exact" then g.precision else "reduced"

abbrev pub shown_assistance : Bool → Value → Value → Value
shown_assistance false kind reported_at = null
shown_assistance true kind reported_at = object (
    field "kind" kind (
      field "label"
        (text (if is_text "assistance" kind then "Help requested" else "Emergency stop"))
        (field "reportedAt" reported_at end)))

abbrev pub assistance_of : Value → Result Value
assistance_of (object fs) = do
  known ← in_texts (get "kind" fs) ("assistance" ∷ "emergencyStop" ∷ [])
  ok (shown_assistance known (get "kind" fs) (get "reportedAt" fs))
assistance_of _ = ok null

-- the key of `max`
abbrev pub rank : Freshness → ℕ
rank unavailable = 0
rank fresh = 0
rank delayed = 1
rank offline = 2

abbrev pub is_available : Freshness → Bool
is_available unavailable = false
is_available _ = true

-- `max`, which keeps the first of two that are equal
unfoldable pub worst_from : Freshness → List Freshness → Freshness
worst_from f [] = f
worst_from f (g ∷ gs) = worst_from (if ltb (rank f) (rank g) then g else f) gs

unfoldable pub worst : List Freshness → Freshness
unfolding worst_from
worst [] = unavailable
worst (f ∷ fs) = worst_from f fs

unfoldable pub available : List ParticipantView → List Freshness
available [] = []
available (p ∷ ps) = if is_available p.freshness then p.freshness ∷ available ps else available ps

-- What a loop over the stored participants meets: the keys of a dictionary and the characters of
-- a text are no dictionaries, and it passes over them.
abbrev pub raw_participants : Value → Result Items
raw_participants (array vs) = ok vs
raw_participants (object _) = ok nil
raw_participants (text _) = ok nil
raw_participants _ = err type_error

abbrev pub position_for : Bool → Fields → Value
position_for true snapshot = null
position_for false snapshot = get "position" snapshot

module _ (env : Env) where
  abbrev pub participant_view : ℕ → Fields → Result ParticipantView
  participant_view now fs = do
    at ← recorded_at env (get "position" fs)
    ok (record {
      display_name = get "displayName" fs;
      role = get "role" fs;
      color = get "color" fs;
      position = get "position" fs;
      freshness = freshness at now;
    })

  unfoldable pub participant_views : ℕ → Items → Result (List ParticipantView)
  participant_views now nil = ok []
  participant_views now (cons (object fs) vs) = do
    p ← participant_view now fs
    ps ← participant_views now vs
    ok (p ∷ ps)
  participant_views now (cons _ vs) = participant_views now vs

  unfoldable pub rider_view : ObserverGrant → Fields → Value → Option ℕ → ℕ → SnapshotView
  rider_view g snapshot assistance at now = record {
    protocol_version = 1;
    scope = "rider";
    precision = precision_of g;
    label = g.label;
    subject_name = get "subjectName" snapshot;
    ride_status = get_or "rideStatus" (text "waiting") snapshot;
    status_updated_at = get "statusUpdatedAt" snapshot;
    freshness = freshness at now;
    server_time = now;
    expires_at = g.expires_at;
    position = get "position" snapshot;
    participants = [];
    route = null;
    assistance = assistance;
  }

  unfoldable pub group_view : ObserverGrant → Fields → ℕ → List ParticipantView → SnapshotView
  group_view g snapshot now participants = record {
    protocol_version = 2;
    scope = "group";
    precision = precision_of g;
    label = g.label;
    subject_name = get "subjectName" snapshot;
    ride_status = get_or "rideStatus" (text "waiting") snapshot;
    status_updated_at = get "statusUpdatedAt" snapshot;
    freshness = worst (available participants);
    server_time = now;
    expires_at = g.expires_at;
    position = null;
    participants = participants;
    route = get "route" snapshot;
    assistance = null;
  }

  -- the answer for a scope, from whether it is a group
  abbrev pub scoped_view :
      Bool → ObserverGrant → Fields → Value → Option ℕ → ℕ → Result SnapshotView
  scoped_view false g snapshot assistance at now = ok (rider_view g snapshot assistance at now)
  scoped_view true g snapshot assistance at now = do
    raw ← raw_participants (get_or "participants" (array nil) snapshot)
    participants ← participant_views now raw
    ok (group_view g snapshot now participants)

  unfoldable pub view : ObserverGrant → Fields → ℕ → Result SnapshotView
  view g snapshot now = do
    at ← recorded_at env (position_for (str_eq (scope_of g) "group") snapshot)
    assistance ← assistance_of (get "assistance" snapshot)
    scoped_view (str_eq (scope_of g) "group") g snapshot assistance at now
