-- ===== src/Observer/Read.antt =====
-- The transaction of `observer_snapshot` of apps/server/src/balloon_crumbs_server/observer.py.
use balloon_crumbs.Prelude.{ℕ, String, Bool, some, str_eq}
use balloon_crumbs.Effect.{Exec, lift, transaction, ◌>>=◌, ◌>>◌, modify}
use balloon_crumbs.Models.{ObserverGrant, Db}
use balloon_crumbs.Text.{prefixed, repeated, is_base64url, codes}
use balloon_crumbs.Env.{Env}
use balloon_crumbs.Observer.Access.{authorized_grant}
use balloon_crumbs.Observer.Grants.{update_grants}
use balloon_crumbs.Observer.Merge.{current_state}
use balloon_crumbs.Observer.View.{SnapshotView, view}

-- `OBSERVER_TOKEN.fullmatch`
unfoldable pub is_observer_token : String → Bool
unfolding is_base64url
is_observer_token s = prefixed (codes "ro1_") (repeated is_base64url 43) (codes s)

-- `grant.last_read_at = now`
abbrev pub read_grant : ℕ → ObserverGrant → ObserverGrant
read_grant now g = record g { last_read_at = some now }

module _ (env : Env) where
  unfoldable pub read_snapshot : String → String → ℕ → Exec Db SnapshotView
  read_snapshot grant_id observer_token now db =
      (do
        g ← lift (
            authorized_grant env grant_id observer_token is_observer_token
              (λ g. g.observer_token_hash) now db)
        modify (λ s. record s {
          observer_grants =
              update_grants (λ x. str_eq x.id g.id) (read_grant now) s.observer_grants;
        })
        snapshot ← lift (current_state env g g.snapshot_ciphertext)
        lift (view env g snapshot now))
        db

  unfoldable pub observer_snapshot : String → String → ℕ → Exec Db SnapshotView
  observer_snapshot grant_id observer_token now =
      transaction (read_snapshot grant_id observer_token now)
