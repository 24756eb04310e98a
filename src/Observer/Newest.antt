-- ===== src/Observer/Newest.antt =====
-- The order of the snapshots of a grant (apps/server/src/balloon_crumbs_server/observer.py).
use balloon_crumbs.Prelude.{
  subst, ◌≡◌, sym, ap, inl, inr, ℕ, ◌≤◌, ◌<◌, String, false, not, some, List, [], ◌∷◌, arith,
  str_eq, ◌==◌, ==_iff, Bool-cases, count_of,
}
use balloon_crumbs.Result.{ok, reject, >>=-invert}
use balloon_crumbs.Models.{ObserverGrant, Db}
use balloon_crumbs.Env.{Env}
use balloon_crumbs.Crypto.{token_hash}
use balloon_crumbs.Effect.Inversion.{continue-invert, test-invert, transaction-ok}
use balloon_crumbs.Plans.Codes.{err≢ok}
use balloon_crumbs.Crew.Authorised.{reject-ok}
use balloon_crumbs.Observer.Access.{grant_unavailable, find_grant, authorized_grant}
use balloon_crumbs.Observer.Grants.{update_grants}
use balloon_crumbs.Observer.Refusals.{with_grant_id, authorized_grant-found}
use balloon_crumbs.Observer.Snapshot.{Numbers}
use balloon_crumbs.Observer.Merge.{PublishRequest, check_snapshot, has_version, next_snapshot}
use balloon_crumbs.Observer.Publish.{
  is_publisher_token, published_grant, is_publishable, publish_rows, publish_observer_snapshot,
}

publishable-le :
    (id : String) (hash : List ℕ) (now : ℕ) (gs : List ObserverGrant)
    → count_of (is_publishable id hash now) gs ≤ with_grant_id id gs
publishable-le id hash now [] = omega arith
publishable-le id hash now (g ∷ gs) = ground (arith, publishable-le id hash now gs)

update_grants-published :
    (id : String) (hash c : List ℕ) (now version : ℕ) (gs : List ObserverGrant)
    (found : ObserverGrant)
    → with_grant_id id gs ≤ 1
    → 1 ≤ count_of (is_publishable id hash now) gs
    → find_grant id (update_grants (is_publishable id hash now) (published_grant c now version) gs)
      ≡ some found
    → found.snapshot_version_at ≡ some version
unfolding update_grants
update_grants-published id hash c now version [] found u k h = absurd (omega (arith, k))
update_grants-published id hash c now version (g ∷ gs) found u k h =
    ground
      (arith, update_grants-published id hash c now version gs found, publishable-le id hash now gs)

-- What a publication that returned has found and stored.
pub record Published (id : String) (q : PublishRequest) (now : ℕ) (db db' : Db) : Type 0 where
  pub grant : ObserverGrant
  pub ciphertext : List ℕ
  pub hash : List ℕ
  pub found : find_grant id db.observer_grants ≡ some grant
  pub newer : has_version q.snapshot_generated_at grant.snapshot_version_at ≡ false
  pub one : count_of (is_publishable id hash now) db.observer_grants ≡ 1
  pub stored :
      db'.observer_grants
      ≡ update_grants
          (is_publishable id hash now)
          (published_grant ciphertext now q.snapshot_generated_at)
          db.observer_grants

module _ (env : Env) (numbers : Numbers) (nonce : List ℕ) where
  next_snapshot-newer :
      (g : ObserverGrant) (q : PublishRequest) (c : List ℕ)
      → next_snapshot env numbers nonce g q ≡ ok c
      → has_version q.snapshot_generated_at g.snapshot_version_at ≡ false
  unfolding next_snapshot
  next_snapshot-newer g q c h = >>=-invert (reject (not (str_eq g.scope q.scope)) _) _ h (λ _ _ h1.
      >>=-invert (reject (has_version q.snapshot_generated_at g.snapshot_version_at) _) _ h1
        (λ u e _. reject-ok _ _ u e))

  module _ (id token : String) (q : PublishRequest) (now : ℕ) (db db' : Db) where
    publish_rows-ok :
        publish_rows env numbers nonce id token q now db ≡ (ok tt, db') → Published id q now db db'
    unfolding publish_rows
    publish_rows-ok h =
        continue-invert
          (authorized_grant env id token is_publisher_token (λ g. g.publisher_token_hash) now db) _
          db db' tt h
          (λ g a h1. continue-invert (next_snapshot env numbers nonce g q) _ db db' tt h1 (λ c n h2.
            continue-invert (token_hash env token) _ db db' tt h2 (λ hash _ h3.
              elim (Bool-cases (count_of (is_publishable id hash now) db.observer_grants == 1)) [
                | inr no_match ↦ absurd (err≢ok (ap (λ p. p.0) (rw no_match at h3)))
                | inl one ↦ record {
                  grant = g;
                  ciphertext = c;
                  hash = hash;
                  found =
                      (authorized_grant-found env id token is_publisher_token
                        (λ g. g.publisher_token_hash) now db g a).0;
                  newer = next_snapshot-newer g q c n;
                  one = (==_iff (count_of (is_publishable id hash now) db.observer_grants) 1).0 one;
                  stored = sym (ap (λ p. p.1.observer_grants) (rw one at h3));
                }
              ])))

    publish_observer_snapshot-ok :
        publish_observer_snapshot env numbers nonce id token q now db ≡ (ok tt, db')
        → Published id q now db db'
    unfolding publish_observer_snapshot
    publish_observer_snapshot-ok h = continue-invert (check_snapshot q now) _ db db' tt h (λ _ _ h1.
        test-invert (not (is_publisher_token token)) grant_unavailable _ db db' tt h1 (λ _ h2.
          publish_rows-ok
            (transaction-ok (publish_rows env numbers nonce id token q now) db db' tt h2)))

-- Two snapshots of one grant that are accepted one after the other were generated in that order,
-- whatever was stored before and whoever sent them, where an identity has one grant at most.
pub publish_observer_snapshot-in_order :
    (env : Env) (numbers : Numbers) (nonce nonce' : List ℕ) (id token token' : String)
    (q q' : PublishRequest) (now later : ℕ) (db db' db'' : Db)
    → with_grant_id id db.observer_grants ≤ 1
    → publish_observer_snapshot env numbers nonce id token q now db ≡ (ok tt, db')
    → publish_observer_snapshot env numbers nonce' id token' q' later db' ≡ (ok tt, db'')
    → q.snapshot_generated_at < q'.snapshot_generated_at
publish_observer_snapshot-in_order env numbers nonce nonce' id token token' q q' now later db db'
      db'' unique h h' =
    let first = publish_observer_snapshot-ok env numbers nonce id token q now db db' h in
    let second = publish_observer_snapshot-ok env numbers nonce' id token' q' later db' db'' h' in
    let version =
      update_grants-published id first.hash first.ciphertext now q.snapshot_generated_at
        db.observer_grants second.grant unique (ground (arith, first.one))
        (subst (λ gs. find_grant id gs ≡ some second.grant) first.stored second.found) in
    let newer = subst (λ v. has_version q'.snapshot_generated_at v ≡ false) version second.newer in
    ground (arith, newer)
