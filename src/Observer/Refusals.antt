-- ===== src/Observer/Refusals.antt =====
-- A grant after its revocation (apps/server/src/balloon_crumbs_server/observer.py).
use balloon_crumbs.Prelude.{
  subst, ◌≡◌, refl, sym, ap, ◌∙◌, inl, inr, ℕ, ◌≤◌, String, Bool, true, false, not, some, List, [],
  ◌∷◌, arith, str_eq, ◌==◌, ==_iff, Bool-cases, is_some, count_of,
}
use balloon_crumbs.Result.{ok, reject, or_raise, >>=-invert, ok-injective}
use balloon_crumbs.Models.{ObserverGrant, Db}
use balloon_crumbs.Env.{Env}
use balloon_crumbs.Crypto.{token_hash}
use balloon_crumbs.Effect.Inversion.{continue-invert, test-invert, transaction-ok}
use balloon_crumbs.Plans.Codes.{err≢ok, true≢false}
use balloon_crumbs.Crew.Authorised.{reject-ok, or_raise-ok}
use balloon_crumbs.Observer.Access.{
  grant_unavailable, is_management_token, find_grant, admits_grant, authorized_grant,
}
use balloon_crumbs.Observer.Grants.{
  is_revocable, revoked_grant, update_grants, revoke_rows, revoke_observer_grant,
}

abbrev pub with_grant_id : String → List ObserverGrant → ℕ
with_grant_id id grants = count_of (λ g. str_eq g.id id) grants

revocable-le :
    (id : String) (hash : List ℕ) (now : ℕ) (gs : List ObserverGrant)
    → count_of (is_revocable id hash now) gs ≤ with_grant_id id gs
revocable-le id hash now [] = omega arith
revocable-le id hash now (g ∷ gs) = ground (arith, revocable-le id hash now gs)

update_grants-revoked :
    (id : String) (hash : List ℕ) (now : ℕ) (gs : List ObserverGrant) (found : ObserverGrant)
    → with_grant_id id gs ≤ 1
    → 1 ≤ count_of (is_revocable id hash now) gs
    → find_grant id (update_grants (is_revocable id hash now) (revoked_grant now) gs) ≡ some found
    → is_some found.revoked_at ≡ true
unfolding update_grants
update_grants-revoked id hash now [] found u c h = absurd (omega (arith, c))
update_grants-revoked id hash now (g ∷ gs) found u c h =
    ground (arith, update_grants-revoked id hash now gs found, revocable-le id hash now gs)

-- Without a row that is to be revoked, only the rows that are there can match.
unmatched :
    (id : String) (hash hash' : List ℕ) (now later : ℕ) (gs : List ObserverGrant)
    → with_grant_id id gs ≡ 0
    → count_of
        (is_revocable id hash' later)
        (update_grants (is_revocable id hash now) (revoked_grant now) gs)
      ≡ 0
unfolding update_grants
unmatched id hash hash' now later [] u = refl
unmatched id hash hash' now later (g ∷ gs) u =
    ground (arith, u, unmatched id hash hash' now later gs)

-- No row with the identity is left for another `UPDATE` to match.
update_grants-unmatched :
    (id : String) (hash hash' : List ℕ) (now later : ℕ) (gs : List ObserverGrant)
    → with_grant_id id gs ≤ 1
    → 1 ≤ count_of (is_revocable id hash now) gs
    → count_of
        (is_revocable id hash' later)
        (update_grants (is_revocable id hash now) (revoked_grant now) gs)
      ≡ 0
unfolding update_grants
update_grants-unmatched id hash hash' now later [] u c = absurd (omega (arith, c))
update_grants-unmatched id hash hash' now later (g ∷ gs) u c = ground (
  arith,
  update_grants-unmatched id hash hash' now later gs,
  unmatched id hash hash' now later gs,
  revocable-le id hash now gs,
  revocable-le id hash' later gs,
)

module _ (env : Env) where
  -- A grant that is authorised is a stored one that is not revoked.
  pub authorized_grant-found :
      (grant_id token : String) (pattern : String → Bool) (expected : ObserverGrant → List ℕ)
      (now : ℕ) (db : Db) (g : ObserverGrant)
      → authorized_grant env grant_id token pattern expected now db ≡ ok g
      → (find_grant grant_id db.observer_grants ≡ some g) × (is_some g.revoked_at ≡ false)
  unfolding authorized_grant admits_grant
  authorized_grant-found grant_id token pattern expected now db g h =
      >>=-invert (reject (not (pattern token)) grant_unavailable) _ h (λ _ _ h1.
        >>=-invert (or_raise (find_grant grant_id db.observer_grants) grant_unavailable) _ h1
          (λ found f h2. >>=-invert (token_hash env token) _ h2 (λ hash _ h3.
            >>=-invert (reject (not (admits_grant env expected now hash found)) grant_unavailable) _
              h3
              (λ u a h4.
                subst
                  (λ x.
                    (find_grant grant_id db.observer_grants ≡ some x)
                    × (is_some x.revoked_at ≡ false))
                  (ok-injective h4) (or_raise-ok _ _ _ f, ground (arith, reject-ok _ _ u a))))))

  revoke_rows-ok :
      (grant_id : String) (hash : List ℕ) (now : ℕ) (db db' : Db)
      → revoke_rows env grant_id hash now db ≡ (ok tt, db')
      → (count_of (is_revocable grant_id hash now) db.observer_grants ≡ 1)
        × (db'.observer_grants
            ≡ update_grants (is_revocable grant_id hash now) (revoked_grant now) db.observer_grants)
  unfolding revoke_rows
  revoke_rows-ok grant_id hash now db db' h =
      elim (Bool-cases (count_of (is_revocable grant_id hash now) db.observer_grants == 1)) [
        | inr no_match ↦ absurd (err≢ok (ap (λ p. p.0) (rw no_match at h)))
        | inl one ↦ (
          (==_iff (count_of (is_revocable grant_id hash now) db.observer_grants) 1).0 one,
          sym (ap (λ p. p.1.observer_grants) (rw one at h)),
        )
      ]

  -- Where no row matches, a revocation is refused.
  revoke_observer_grant-unmatched :
      (grant_id management_token : String) (now : ℕ) (db db' : Db)
      → ((hash : List ℕ) → count_of (is_revocable grant_id hash now) db.observer_grants ≡ 0)
      → ¬ (revoke_observer_grant env grant_id management_token now db ≡ (ok tt, db'))
  unfolding revoke_observer_grant
  revoke_observer_grant-unmatched grant_id management_token now db db' none_left h =
      test-invert (not (is_management_token management_token)) grant_unavailable _ db db' tt h
        (λ _ h1. continue-invert (token_hash env management_token) _ db db' tt h1 (λ hash _ h2.
          let (matched, _) =
            revoke_rows-ok grant_id hash now db db'
              (transaction-ok (revoke_rows env grant_id hash now) db db' tt h2) in
          absurd (omega (arith, matched, none_left hash))))

  -- After a grant has been revoked, where an identity has one grant at most, no token authorises a
  -- caller for it at any time, under whatever pattern and hash an operation asks for, and no
  -- management token revokes it again.
  pub revoke_observer_grant-final :
      (grant_id management_token token token' : String) (pattern : String → Bool)
      (expected : ObserverGrant → List ℕ) (now later : ℕ) (db db' db'' : Db) (g : ObserverGrant)
      → with_grant_id grant_id db.observer_grants ≤ 1
      → revoke_observer_grant env grant_id management_token now db ≡ (ok tt, db')
      → ¬ (authorized_grant env grant_id token pattern expected later db' ≡ ok g)
        × ¬ (revoke_observer_grant env grant_id token' later db' ≡ (ok tt, db''))
  unfolding revoke_observer_grant
  revoke_observer_grant-final grant_id management_token token token' pattern expected now later db
        db' db'' g unique h =
      test-invert (not (is_management_token management_token)) grant_unavailable _ db db' tt h
        (λ _ h1. continue-invert (token_hash env management_token) _ db db' tt h1 (λ hash _ h2.
          let (matched, stored) =
            revoke_rows-ok grant_id hash now db db'
              (transaction-ok (revoke_rows env grant_id hash now) db db' tt h2) in
          (
            λ accepted.
                let (found, live) =
                  authorized_grant-found grant_id token pattern expected later db' g accepted in
                true≢false (
                  sym (
                    update_grants-revoked grant_id hash now db.observer_grants g unique
                      (omega (arith, matched))
                      (subst (λ gs. find_grant grant_id gs ≡ some g) stored found))
                  ∙ live),
            revoke_observer_grant-unmatched grant_id token' later db' db'' (λ hash'.
                subst (λ gs. count_of (is_revocable grant_id hash' later) gs ≡ 0) (sym stored)
                  (update_grants-unmatched grant_id hash hash' now later db.observer_grants unique
                    (omega (arith, matched)))),
          )))
