-- ===== src/Presence/Roster.antt =====
-- The phase and the roster of a ride, read from its stored events: `_ride_presence_phase` and
-- `_presence_members` of apps/server/src/balloon_crumbs_server/service.py.
use balloon_crumbs.Prelude.{
  ◌*◌, String, Bool, true, false, ◌&&◌, Option, none, some, List, [], ◌∷◌, map, str_eq,
  if◌then◌else◌, take, keep, last_or, contains,
}
use balloon_crumbs.Result.{value_error, Result, ok, err, ◌>>=◌}
use balloon_crumbs.Json.{Value, text, object, Fields, end, get}
use balloon_crumbs.Models.{StoredEvent}
use balloon_crumbs.Prelude.Order.{order_by}
use balloon_crumbs.Env.{Env}
use balloon_crumbs.Crypto.{decrypt_json}
use balloon_crumbs.Text.Strip.{strip, prefix_text}
use balloon_crumbs.Sync.Store.{event_of, event_aad}

pub data Phase : Type 0 where
  open_phase started ended : Phase

abbrev pub is_lifecycle : String → StoredEvent → Bool
is_lifecycle ride_id e =
    event_of ride_id e
    && contains str_eq e.event_type ("rideStarted" ∷ "rideEnded" ∷ "rideReopened" ∷ [])

-- the types of a ride's lifecycle events, in order
unfoldable pub lifecycle_types : String → List StoredEvent → List String
lifecycle_types ride_id events =
    map (λ e. e.event_type) (keep (is_lifecycle ride_id) (order_by (λ e. e.sequence) events))

abbrev pub is_end : String → Bool
is_end name = contains str_eq name ("rideEnded" ∷ "rideReopened" ∷ [])

unfoldable pub phase_of : List String → Phase
phase_of types =
    let ended_types = keep is_end types in
    if str_eq (last_or "" ended_types) "rideEnded"
    then ended
    else if contains str_eq "rideStarted" types
    then started
    else open_phase

unfoldable pub ride_presence_phase : String → List StoredEvent → Phase
unfolding phase_of lifecycle_types
ride_presence_phase ride_id events = phase_of (lifecycle_types ride_id events)

pub record Member : Type 0 where
  pub rider_id : String
  pub display_name : String
  pub role : String
  pub joined_at : String
  pub left : Bool
  pub left_at : Option String

-- `members[rider_id] = member`: a known rider keeps its place
unfoldable pub put_roster : Member → List Member → List Member
put_roster member [] = member ∷ []
put_roster member (m ∷ members) =
    if str_eq m.rider_id member.rider_id then member ∷ members else m ∷ put_roster member members

unfoldable pub mark_left : String → String → List Member → List Member
mark_left rider_id at [] = []
mark_left rider_id at (m ∷ members) =
    if str_eq m.rider_id rider_id
    then record m { left = true; left_at = some at } ∷ members
    else m ∷ mark_left rider_id at members

-- a name or a role: a text with something in it
abbrev pub stripped : Value → Option String
stripped (text s) = if str_eq (strip s) "" then none else some (strip s)
stripped _ = none

abbrev pub is_membership : String → StoredEvent → Bool
is_membership ride_id e =
    event_of ride_id e
    && contains str_eq e.event_type ("rideCreated" ∷ "riderJoined" ∷ "riderLeft" ∷ [])

abbrev pub payload_of : Fields → Fields
payload_of body = elim (get "payload" body) [ object fs ↦ fs | _ ↦ end ]

module _ (env : Env) where
  -- the roster after a row whose body is a dictionary
  unfoldable pub enrol : StoredEvent → Fields → List Member → List Member
  unfolding put_roster mark_left
  enrol row body members =
      if str_eq row.event_type "riderLeft"
      then mark_left row.device_id (env.isoformat row.created_at) members
      else elim (stripped (get "displayName" (payload_of body))) [
        | none ↦ members
        | some name ↦ elim (stripped (get "role" (payload_of body))) [
          | none ↦ members
          | some role ↦
              put_roster
                (record {
                  rider_id = row.device_id;
                  display_name = prefix_text 80 name;
                  role = prefix_text 40 role;
                  joined_at = env.isoformat row.created_at;
                  left = false;
                  left_at = none;
                })
                members
        ]
      ]

  -- A body that is no JSON or no dictionary is skipped; one that does not open raises.
  unfoldable pub enrol_row : String → StoredEvent → List Member → Result (List Member)
  unfolding enrol
  enrol_row ride_id row members =
      elim (decrypt_json env row.body_ciphertext (event_aad ride_id row.event_id)) [
        | ok (object body) ↦ ok (enrol row body members)
        | ok _ ↦ ok members
        | err value_error ↦ ok members
        | err e ↦ err e
      ]

  unfoldable pub enrol_rows : String → List StoredEvent → List Member → Result (List Member)
  unfolding enrol_row
  enrol_rows ride_id [] members = ok members
  enrol_rows ride_id (row ∷ rows) members = do
    members' ← enrol_row ride_id row members
    enrol_rows ride_id rows members'

  unfoldable pub presence_members : String → List StoredEvent → Result (List Member)
  unfolding enrol_rows
  presence_members ride_id events =
      enrol_rows ride_id
        (take (env.settings.maximum_pre_start_presence_riders * 4)
          (keep (is_membership ride_id) (order_by (λ e. e.sequence) events)))
        []
