-- ===== src/Observer/Access.antt =====
-- What an operation on observer grants asks of its caller: `_authorized_grant`, and the checks of
-- `create_observer_grant`, of apps/server/src/balloon_crumbs_server/observer.py.
use balloon_crumbs.Prelude.{
  ℕ, String, Bool, not, ◌&&◌, Option, List, str_eq, ltb, if◌then◌else◌, is_some, find,
}
use balloon_crumbs.Result.{Fault, relay_service_error, Result, ok, ◌>>=◌, ◌>>◌, reject, or_raise}
use balloon_crumbs.Models.{Ride, ObserverGrant, Db}
use balloon_crumbs.Text.{prefixed, repeated, is_base64url, codes, compare_digest}
use balloon_crumbs.Env.{Env}
use balloon_crumbs.Crypto.{token_hash}
use balloon_crumbs.Observer.Request.{
  CreateGrantRequest, authenticated_ride, verify_group_pilot_authorization,
}

abbrev pub grant_unavailable : Fault
grant_unavailable = relay_service_error 404 "Observer access is unavailable"

-- `MANAGEMENT_TOKEN.fullmatch`
unfoldable pub is_management_token : String → Bool
unfolding is_base64url
is_management_token s = prefixed (codes "om1_") (repeated is_base64url 43) (codes s)

-- neither revoked nor expired
abbrev pub is_active_grant : ℕ → ObserverGrant → Bool
is_active_grant now g = not (is_some g.revoked_at) && ltb now g.expires_at

abbrev pub find_grant : String → List ObserverGrant → Option ObserverGrant
find_grant id grants = find (λ g. str_eq g.id id) grants

module _ (env : Env) where
  -- the read-only part of the transaction: the ride, and for a group the pilot's signature
  unfoldable pub check_grant : String → String → CreateGrantRequest → ℕ → Db → Result Ride
  check_grant ride_id bearer_token q now db = do
    ride ← authenticated_ride env ride_id bearer_token db
    if str_eq q.scope "group" then verify_group_pilot_authorization env ride q now db else ok tt
    ok ride

  unfoldable pub admits_grant : (ObserverGrant → List ℕ) → ℕ → List ℕ → ObserverGrant → Bool
  admits_grant expected_hash now hash g =
      is_active_grant now g && compare_digest (expected_hash g) hash

  -- The pattern of a token and the hash of a grant that it answers to are what the callers differ in.
  unfoldable pub authorized_grant :
      String → String → (String → Bool) → (ObserverGrant → List ℕ) → ℕ → Db → Result ObserverGrant
  unfolding admits_grant
  authorized_grant grant_id supplied_token pattern expected_hash now db = do
    reject (not (pattern supplied_token)) grant_unavailable
    g ← or_raise (find_grant grant_id db.observer_grants) grant_unavailable
    hash ← token_hash env supplied_token
    reject (not (admits_grant expected_hash now hash g)) grant_unavailable
    ok g
