-- ===== src/Observer/Publish.antt =====
-- The transaction of `publish_observer_snapshot` of
-- apps/server/src/balloon_crumbs_server/observer.py.
use balloon_crumbs.Prelude.{ℕ, String, Bool, not, ◌&&◌, some, List, str_eq, ◌==◌, count_of}
use balloon_crumbs.Effect.{Exec, lift, transaction, ◌>>=◌, ◌>>◌, modify, raise_if}
use balloon_crumbs.Models.{ObserverGrant, Db}
use balloon_crumbs.Text.{prefixed, repeated, is_base64url, codes, compare_digest}
use balloon_crumbs.Env.{Env}
use balloon_crumbs.Crypto.{token_hash}
use balloon_crumbs.Observer.Access.{grant_unavailable, is_active_grant, authorized_grant}
use balloon_crumbs.Observer.Grants.{update_grants}
use balloon_crumbs.Observer.Snapshot.{Numbers}
use balloon_crumbs.Observer.Merge.{PublishRequest, check_snapshot, next_snapshot}

-- `PUBLISHER_TOKEN.fullmatch`
unfoldable pub is_publisher_token : String → Bool
unfolding is_base64url
is_publisher_token s = prefixed (codes "op1_") (repeated is_base64url 43) (codes s)

-- `.values(snapshot_ciphertext=..., ...)`
abbrev pub published_grant : List ℕ → ℕ → ℕ → ObserverGrant → ObserverGrant
published_grant ciphertext now version g = record g {
  snapshot_ciphertext = some ciphertext;
  snapshot_updated_at = some now;
  snapshot_version_at = some version;
}

-- the rows that the `UPDATE` matches
abbrev pub is_publishable : String → List ℕ → ℕ → ObserverGrant → Bool
is_publishable id hash now g =
    str_eq g.id id && compare_digest g.publisher_token_hash hash && is_active_grant now g

module _ (env : Env) where
  unfoldable pub publish_rows :
      Numbers → List ℕ → String → String → PublishRequest → ℕ → Exec Db (Unit {0})
  publish_rows numbers nonce grant_id publisher_token q now db =
      (do
        g ← lift (
            authorized_grant env grant_id publisher_token is_publisher_token
              (λ g. g.publisher_token_hash) now db)
        ciphertext ← lift (next_snapshot env numbers nonce g q)
        hash ← lift (token_hash env publisher_token)
        modify (λ s. record s {
          observer_grants =
              update_grants (is_publishable grant_id hash now)
                (published_grant ciphertext now q.snapshot_generated_at) s.observer_grants;
        })
        raise_if (not (count_of (is_publishable grant_id hash now) db.observer_grants == 1))
            grant_unavailable)
        db

  unfoldable pub publish_observer_snapshot :
      Numbers → List ℕ → String → String → PublishRequest → ℕ → Exec Db (Unit {0})
  publish_observer_snapshot numbers nonce grant_id publisher_token q now = do
    lift (check_snapshot q now)
    raise_if (not (is_publisher_token publisher_token)) grant_unavailable
    transaction (publish_rows numbers nonce grant_id publisher_token q now)
