-- ===== src/Membership.antt =====
-- The membership projection: apps/server/src/balloon_crumbs_server/membership.py.
use balloon_crumbs.Prelude.{
  ℕ, String, Bool, ◌&&◌, Option, none, some, List, [], ◌∷◌, str_eq, ltb, if◌then◌else◌, find,
}
use balloon_crumbs.Result.{Result, ok, ◌>>=◌}
use balloon_crumbs.Json.{Value, Fields, get, as_text, in_texts}
use balloon_crumbs.Models.{RideMember}

pub record MembershipEvent : Type 0 where
  pub device_id : String
  pub event_type : String
  pub created_at : ℕ
  pub payload : Fields

-- The set membership test hashes the value, so that a list or a dictionary raises `TypeError`.
unfoldable pub safe_role : Value → Result String
safe_role value = do
  known ← in_texts value ("lead" ∷ "rider" ∷ "tailEndCharlie" ∷ [])
  ok (if known then (elim (as_text value) [ some s ↦ s | none ↦ "rider" ]) else "rider")

abbrev pub is_member : String → String → RideMember → Bool
is_member ride_id device_id m = str_eq m.ride_id ride_id && str_eq m.device_id device_id

-- the row of a device, written back in place or added
unfoldable pub put_member : RideMember → List RideMember → List RideMember
put_member member [] = member ∷ []
put_member member (m ∷ members) =
    if is_member member.ride_id member.device_id m
    then member ∷ members
    else m ∷ put_member member members

-- the member that the loop works on: a new one, or the stored one, seen now if the event is newer
unfoldable pub seen_member : String → MembershipEvent → Option RideMember → RideMember
seen_member ride_id event none = record {
  ride_id = ride_id;
  device_id = event.device_id;
  role = "rider";
  state = "joined";
  last_seen_at = event.created_at;
}
seen_member ride_id event (some member) =
    if ltb member.last_seen_at event.created_at
    then record member { last_seen_at = event.created_at }
    else member

unfoldable pub apply_membership : MembershipEvent → RideMember → Result RideMember
unfolding safe_role
apply_membership event member =
    if str_eq event.event_type "riderJoined"
    then (do
      role ← safe_role (get "role" event.payload)
      ok (record member { role = role; state = "joined" }))
    else if str_eq event.event_type "roleChanged"
    then (do role ← safe_role (get "role" event.payload); ok (record member { role = role }))
    else if str_eq event.event_type "riderLeft"
    then ok (record member { state = "left" })
    else ok member

unfoldable pub project_membership_event :
    String → MembershipEvent → List RideMember → Result (List RideMember)
unfolding apply_membership seen_member put_member
project_membership_event ride_id event members = do
  member ←
      apply_membership event
        (seen_member ride_id event (find (is_member ride_id event.device_id) members))
  ok (put_member member members)

unfoldable pub project_membership_events :
    String → List MembershipEvent → List RideMember → Result (List RideMember)
unfolding project_membership_event
project_membership_events ride_id [] members = ok members
project_membership_events ride_id (event ∷ events) members = do
  members' ← project_membership_event ride_id event members
  project_membership_events ride_id events members'
