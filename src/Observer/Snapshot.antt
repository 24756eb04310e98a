-- ===== src/Observer/Snapshot.antt =====
-- The document of a flight's state that a grant stores: `_reduce_snapshot_precision`, `_timestamp`
-- and `_freshness` of apps/server/src/balloon_crumbs_server/observer.py.
use balloon_crumbs.Prelude.{
  ℕ, String, Bool, true, false, ◌&&◌, Option, none, some, str_eq, ltb, leb, ◌-◌, if◌then◌else◌,
}
use balloon_crumbs.Json.{
  Value, boolean, natural, negative, double, text, array, object, Items, nil, cons, Fields, end,
  field, get,
}
use balloon_crumbs.Result.{Result, ok, ◌>>=◌}
use balloon_crumbs.Text.{text_len}
use balloon_crumbs.Env.{Env, seconds, minutes}
use balloon_crumbs.Sync.Event.{replace_z}
use balloon_crumbs.Observer.Signatures.{event_instant}

-- What Python computes on the numbers of a document: `round(value, digits)`, `float(value)` as the
-- bit pattern of a binary64, and whether one such number is greater than another.
pub record Numbers : Type 0 where
  pub round : Value → ℕ → Value
  pub as_float : Value → Result ℕ
  pub exceeds : ℕ → ℕ → Bool

-- the bit pattern of 1500.0
abbrev pub least_accuracy : ℕ
least_accuracy = 0x4097700000000000

-- `document[key] = value`
abbrev pub put : String → Value → Fields → Fields
put k v end = field k v end
put k v (field j w fs) = if str_eq j k then field j v fs else field j w (put k v fs)

-- `document.get(key, default)`
abbrev pub get_or : String → Value → Fields → Value
get_or k d end = d
get_or k d (field j v fs) = if str_eq j k then v else get_or k d fs

-- `isinstance(value, int | float)`: a `bool` is an `int`.
abbrev pub is_number : Value → Bool
is_number (boolean _) = true
is_number (natural _) = true
is_number (negative _) = true
is_number (double _) = true
is_number _ = false

abbrev pub has_coordinates : Fields → Bool
has_coordinates fs = is_number (get "latitude" fs) && is_number (get "longitude" fs)

module _ (numbers : Numbers) where
  abbrev pub rounded : Fields → Fields
  rounded fs =
      put "longitude" (numbers.round (get "longitude" fs) 2)
        (put "latitude" (numbers.round (get "latitude" fs) 2) fs)

  abbrev pub larger : ℕ → ℕ → ℕ
  larger a b = if numbers.exceeds b a then b else a

  -- whether the accuracy is included
  unfoldable pub reduce_fields : Bool → Fields → Result Value
  reduce_fields false fs = ok (object fs)
  reduce_fields true fs = do
    accuracy ← numbers.as_float (get_or "accuracyMeters" (natural 0) fs)
    ok (object (put "accuracyMeters" (double (larger accuracy least_accuracy)) fs))

  unfoldable pub reduce_position : Bool → Value → Result Value
  reduce_position include_accuracy (object fs) =
      if has_coordinates fs then reduce_fields include_accuracy (rounded fs) else ok (object fs)
  reduce_position include_accuracy v = ok v

  abbrev pub reduce_participant : Value → Result Value
  reduce_participant (object fs) = do
    position ← reduce_position true (get "position" fs)
    ok (object (put "position" position fs))
  reduce_participant v = ok v

  -- a list comprehension
  unfoldable pub each : (Value → Result Value) → Items → Result Items
  each f nil = ok nil
  each f (cons v vs) = do w ← f v; ws ← each f vs; ok (cons w ws)

  abbrev pub reduce_participants : Value → Fields → Result Fields
  reduce_participants (array vs) result = do
    ws ← each reduce_participant vs
    ok (put "participants" (array ws) result)
  reduce_participants _ result = ok result

  abbrev pub reduce_points : Value → Fields → Fields → Result Fields
  reduce_points (array vs) route result = do
    ws ← each (reduce_position false) vs
    ok (put "route" (object (put "points" (array ws) route)) result)
  reduce_points _ route result = ok result

  abbrev pub reduce_route : Value → Fields → Result Fields
  reduce_route (object route) result = reduce_points (get "points" route) route result
  reduce_route _ result = ok result

  unfoldable pub reduce_snapshot_precision : Fields → Result Fields
  reduce_snapshot_precision snapshot = do
    position ← reduce_position true (get "position" snapshot)
    result ←
        reduce_participants (get "participants" (put "position" position snapshot))
          (put "position" position snapshot)
    reduce_route (get "route" result) result

-- `_timestamp`: a value that is not a text, one longer than 40 characters, one that does not parse
-- and one without an offset are no instant.
unfoldable pub timestamp : Env → Value → Result (Option ℕ)
timestamp env (text s) =
    if ltb 40 (text_len s) then ok none else event_instant (env.fromisoformat (replace_z s))
timestamp env _ = ok none

-- the instant of a position that is stored
abbrev pub recorded_at : Env → Value → Result (Option ℕ)
recorded_at env (object fs) = timestamp env (get "recordedAt" fs)
recorded_at env _ = ok none

pub data Freshness : Type 0 where
  unavailable fresh delayed offline : Freshness

-- An instant that lies ahead counts as age 0.
unfoldable pub freshness : Option ℕ → ℕ → Freshness
freshness none now = unavailable
freshness (some at) now =
    if leb (now - at) (seconds 90)
    then fresh
    else if leb (now - at) (minutes 5)
    then delayed
    else offline
