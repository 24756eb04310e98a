-- ===== src/Observer/Grants.antt =====
-- `create_observer_grant`, `get_managed_observer_grant` and `revoke_observer_grant` of
-- apps/server/src/balloon_crumbs_server/observer.py.
use balloon_crumbs.Prelude.{
  ℕ, ◌+◌, min, String, Bool, not, ◌&&◌, none, some, List, [], ◌∷◌, ◌++◌, str_eq, leb, ◌==◌,
  if◌then◌else◌, is_some, count_of,
}
use balloon_crumbs.Result.{relay_service_error, integrity_error}
use balloon_crumbs.Effect.{Exec, pure, lift, transaction, ◌>>=◌, ◌>>◌, modify, raise_if}
use balloon_crumbs.Models.{Ride, ObserverGrant, Db}
use balloon_crumbs.Text.{compare_digest}
use balloon_crumbs.Text.Parts.{format}
use balloon_crumbs.Env.{Env, minutes}
use balloon_crumbs.Crypto.{base64url, token_hash}
use balloon_crumbs.Observer.Request.{CreateGrantRequest, clean_label}
use balloon_crumbs.Observer.Access.{
  grant_unavailable, is_management_token, is_active_grant, find_grant, authorized_grant,
  check_grant,
}

-- What `uuid.uuid4` and `secrets.token_bytes` give to one grant.
pub record GrantEntropy : Type 0 where
  pub id : String
  pub management_bytes : List ℕ
  pub publisher_bytes : List ℕ
  pub observer_bytes : List ℕ

pub record CreatedGrant : Type 0 where
  pub grant : ObserverGrant
  pub management_token : String
  pub publisher_token : String
  pub observer_token : String

abbrev pub active_of : String → ℕ → ObserverGrant → Bool
active_of ride_id now g = str_eq g.ride_id ride_id && is_active_grant now g

-- `.values(revoked_at=now, snapshot_ciphertext=None, ...)`
abbrev pub revoked_grant : ℕ → ObserverGrant → ObserverGrant
revoked_grant now g = record g {
  revoked_at = some now;
  snapshot_ciphertext = none;
  snapshot_updated_at = none;
  snapshot_version_at = none;
}

-- the rows that the `UPDATE` of a revocation matches
abbrev pub is_revocable : String → List ℕ → ℕ → ObserverGrant → Bool
is_revocable id hash now g =
    str_eq g.id id && compare_digest g.management_token_hash hash && is_active_grant now g

unfoldable pub update_grants :
    (ObserverGrant → Bool)
    → (ObserverGrant → ObserverGrant)
    → List ObserverGrant
    → List ObserverGrant
update_grants p f [] = []
update_grants p f (g ∷ gs) = if p g then f g ∷ update_grants p f gs else g ∷ update_grants p f gs

module _ (env : Env) where
  unfoldable pub new_token : String → List ℕ → String
  new_token prefix bytes = format (prefix ∷ "_" ∷ base64url env bytes ∷ [])

  unfoldable pub new_grant :
      GrantEntropy
      → String
      → CreateGrantRequest
      → Ride
      → List ℕ
      → List ℕ
      → List ℕ
      → ℕ
      → ObserverGrant
  new_grant entropy ride_id q ride management publisher observer now = record {
    id = entropy.id;
    ride_id = ride_id;
    label = clean_label q.label;
    scope = q.scope;
    precision = q.precision;
    management_token_hash = management;
    publisher_token_hash = publisher;
    observer_token_hash = observer;
    snapshot_ciphertext = none;
    snapshot_updated_at = none;
    snapshot_version_at = none;
    created_at = now;
    expires_at = min (now + minutes q.duration_minutes) ride.delete_after;
    revoked_at = none;
    last_read_at = none;
  }

  -- `integrity_error` is an identity that is in use.
  unfoldable pub insert_grant :
      GrantEntropy → String → String → CreateGrantRequest → ℕ → Exec Db CreatedGrant
  unfolding new_grant
  insert_grant entropy ride_id bearer_token q now db =
      (do
        ride ← lift (check_grant env ride_id bearer_token q now db)
        raise_if
            (leb env.settings.maximum_observer_grants_per_ride
              (count_of (active_of ride_id now) db.observer_grants))
            (relay_service_error 409 "Active observer limit reached")
        management ← lift (token_hash env (new_token "om1" entropy.management_bytes))
        publisher ← lift (token_hash env (new_token "op1" entropy.publisher_bytes))
        observer ← lift (token_hash env (new_token "ro1" entropy.observer_bytes))
        raise_if (is_some (find_grant entropy.id db.observer_grants)) integrity_error
        modify (λ s. record s {
          observer_grants =
              s.observer_grants
              ++ new_grant entropy ride_id q ride management publisher observer now ∷ [];
        })
        pure (record {
          grant = new_grant entropy ride_id q ride management publisher observer now;
          management_token = new_token "om1" entropy.management_bytes;
          publisher_token = new_token "op1" entropy.publisher_bytes;
          observer_token = new_token "ro1" entropy.observer_bytes;
        }))
        db

  unfoldable pub create_observer_grant :
      GrantEntropy → String → String → CreateGrantRequest → ℕ → Exec Db CreatedGrant
  unfolding insert_grant
  create_observer_grant entropy ride_id bearer_token q now = do
    raise_if (str_eq (clean_label q.label) "")
        (relay_service_error 400 "Observer label is required")
    transaction (insert_grant entropy ride_id bearer_token q now)

  unfoldable pub get_managed_observer_grant : String → String → ℕ → Exec Db ObserverGrant
  get_managed_observer_grant grant_id management_token now db = (
    authorized_grant env grant_id management_token is_management_token
        (λ g. g.management_token_hash) now db,
    db,
  )

  unfoldable pub revoke_rows : String → List ℕ → ℕ → Exec Db (Unit {0})
  unfolding update_grants
  revoke_rows grant_id hash now db =
      (do
        modify (λ s. record s {
          observer_grants =
              update_grants (is_revocable grant_id hash now) (revoked_grant now) s.observer_grants;
        })
        raise_if (not (count_of (is_revocable grant_id hash now) db.observer_grants == 1))
            grant_unavailable)
        db

  unfoldable pub revoke_observer_grant : String → String → ℕ → Exec Db (Unit {0})
  unfolding revoke_rows
  revoke_observer_grant grant_id management_token now = do
    raise_if (not (is_management_token management_token)) grant_unavailable
    hash ← lift (token_hash env management_token)
    transaction (revoke_rows grant_id hash now)
