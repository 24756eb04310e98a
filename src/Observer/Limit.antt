-- ===== src/Observer/Limit.antt =====
-- The number of active grants of a ride (apps/server/src/balloon_crumbs_server/observer.py,
-- `create_observer_grant`).
use balloon_crumbs.Prelude.{
  ◌≡◌, ℕ, ◌≤◌, String, false, List, [], ◌∷◌, ◌++◌, arith, str_eq, eq_iff, leb, is_some,
  sum_of-append, count_of,
}
use balloon_crumbs.Models.{Ride, ObserverGrant, Db}
use balloon_crumbs.Env.{Env}
use balloon_crumbs.Crypto.{token_hash}
use balloon_crumbs.Effect.Keeps.{Keeps, transaction-Keeps, result-Keeps, test-Keeps}
use balloon_crumbs.Observer.Request.{CreateGrantRequest, clean_label}
use balloon_crumbs.Observer.Access.{find_grant, check_grant}
use balloon_crumbs.Observer.Grants.{
  GrantEntropy, active_of, new_token, new_grant, insert_grant, create_observer_grant,
}

-- No ride has more grants that are active at a time than the limit.
unfoldable pub IsWithinLimit : Env → ℕ → Db → Type 0
IsWithinLimit env now db =
    (ride_id : String)
    → count_of (active_of ride_id now) db.observer_grants
      ≤ env.settings.maximum_observer_grants_per_ride

module _ (env : Env) (entropy : GrantEntropy) (q : CreateGrantRequest) (now : ℕ) where
  added-le :
      (ride_id other : String) (ride : Ride) (a b c : List ℕ) (gs : List ObserverGrant)
      → leb env.settings.maximum_observer_grants_per_ride (count_of (active_of ride_id now) gs)
        ≡ false
      → count_of (active_of other now) gs ≤ env.settings.maximum_observer_grants_per_ride
      → count_of (active_of other now) (gs ++ new_grant env entropy ride_id q ride a b c now ∷ [])
        ≤ env.settings.maximum_observer_grants_per_ride
  unfolding new_grant
  added-le ride_id other ride a b c gs below h =
      rw
        (sum_of-append (active_of other now) (λ _. 1) gs
          (new_grant env entropy ride_id q ride a b c now ∷ []))
        (ground (arith, h, below, eq_iff ride_id other))

  within :
      (ride_id : String) (ride : Ride) (a b c : List ℕ) (db : Db)
      → leb env.settings.maximum_observer_grants_per_ride
          (count_of (active_of ride_id now) db.observer_grants)
        ≡ false
      → IsWithinLimit env now db
      → IsWithinLimit env now (record db {
        observer_grants = db.observer_grants ++ new_grant env entropy ride_id q ride a b c now ∷ [];
      })
  unfolding IsWithinLimit
  within ride_id ride a b c db below h other =
      added-le ride_id other ride a b c db.observer_grants below (h other)

  insert_grant-IsWithinLimit :
      (ride_id bearer_token : String)
      → Keeps (IsWithinLimit env now) (insert_grant env entropy ride_id bearer_token q now)
  unfolding insert_grant
  insert_grant-IsWithinLimit ride_id bearer_token db h =
      result-Keeps (IsWithinLimit env now) (check_grant env ride_id bearer_token q now db) _ db h
        (λ ride _.
          test-Keeps (IsWithinLimit env now)
            (leb env.settings.maximum_observer_grants_per_ride
              (count_of (active_of ride_id now) db.observer_grants))
            _ _ db h
            (λ below.
              result-Keeps (IsWithinLimit env now)
                (token_hash env (new_token env "om1" entropy.management_bytes)) _ db h
                (λ a _.
                  result-Keeps (IsWithinLimit env now)
                    (token_hash env (new_token env "op1" entropy.publisher_bytes)) _ db h
                    (λ b _.
                      result-Keeps (IsWithinLimit env now)
                        (token_hash env (new_token env "ro1" entropy.observer_bytes)) _ db h
                        (λ c _.
                          test-Keeps (IsWithinLimit env now)
                            (is_some (find_grant entropy.id db.observer_grants)) _ _ db h
                            (λ _. within ride_id ride a b c db below h))))))

  -- If no ride has more active grants than the limit, this is so after a grant is created too,
  -- whatever the request and its outcome.
  pub create_observer_grant-IsWithinLimit :
      (ride_id bearer_token : String)
      → Keeps (IsWithinLimit env now) (create_observer_grant env entropy ride_id bearer_token q now)
  unfolding create_observer_grant
  create_observer_grant-IsWithinLimit ride_id bearer_token db h =
      test-Keeps (IsWithinLimit env now) (str_eq (clean_label q.label) "") _ _ db h (λ _.
        transaction-Keeps (IsWithinLimit env now)
          (insert_grant env entropy ride_id bearer_token q now)
          (insert_grant-IsWithinLimit ride_id bearer_token) db h)
