-- ===== src/Observer/Scopes.antt =====
-- What the scope of a grant shows (apps/server/src/balloon_crumbs_server/observer.py,
-- `observer_snapshot`).
use balloon_crumbs.Prelude.{
  ◌||◌, some, is_some, ap, subst, eq_iff, Option, ◌≡◌, refl, ℕ, ◌≤◌, String, Bool, true, false,
  List, [], ◌∷◌, arith, str_eq, leb, all, if◌then◌else◌,
}
use balloon_crumbs.Result.{ok, >>=-invert, ok-injective}
use balloon_crumbs.Json.{Fields, get, null, Value, array, nil}
use balloon_crumbs.Effect.Inversion.{continue-invert, transaction-ok}
use balloon_crumbs.Observer.Access.{find_grant, authorized_grant}
use balloon_crumbs.Observer.Refusals.{authorized_grant-found}
use balloon_crumbs.Observer.Read.{is_observer_token, read_snapshot, observer_snapshot}
use balloon_crumbs.Observer.Merge.{current_state}
use balloon_crumbs.Models.{Db, ObserverGrant}
use balloon_crumbs.Env.{Env}
use balloon_crumbs.Observer.Snapshot.{
  get_or, recorded_at, Freshness, unavailable, fresh, delayed, offline,
}
use balloon_crumbs.Observer.View.{
  ParticipantView, SnapshotView, rank, is_available, worst_from, worst, available, raw_participants,
  participant_views, assistance_of, position_for, scope_of, rider_view, group_view, scoped_view,
  view,
}

worst_from-ge : (f : Freshness) (fs : List Freshness) → rank f ≤ rank (worst_from f fs)
unfolding worst_from
worst_from-ge f [] = omega arith
worst_from-ge f (g ∷ fs) = ground (arith, worst_from-ge f fs, worst_from-ge g fs)

-- Every participant is at least as fresh as the answer says.
abbrev pub IsCovered : Freshness → List ParticipantView → Type 0
IsCovered f ps = all (λ p. leb (rank p.freshness) (rank f)) ps ≡ true

unavailable-rank : (f : Freshness) → is_available f ≡ false → rank f ≡ 0
unavailable-rank unavailable h = refl
unavailable-rank fresh h = cc
unavailable-rank delayed h = cc
unavailable-rank offline h = cc

worst_from-IsCovered :
    (f : Freshness) (ps : List ParticipantView) → IsCovered (worst_from f (available ps)) ps
unfolding available worst_from
worst_from-IsCovered f [] = refl
worst_from-IsCovered f (p ∷ ps) = ground (
  arith,
  worst_from-IsCovered f ps,
  worst_from-IsCovered p.freshness ps,
  worst_from-ge f (available ps),
  worst_from-ge p.freshness (available ps),
  unavailable-rank p.freshness,
)

worst-IsCovered : (ps : List ParticipantView) → IsCovered (worst (available ps)) ps
unfolding available worst
worst-IsCovered [] = refl
worst-IsCovered (p ∷ ps) = ground (
  arith,
  worst-IsCovered ps,
  worst_from-IsCovered p.freshness ps,
  worst_from-ge p.freshness (available ps),
  unavailable-rank p.freshness,
)

chosen-group :
    (s : String) (b : Bool) → str_eq (if b then s else "rider") "group" ≡ true → s ≡ "group"
chosen-group s true h = (eq_iff s "group").0 h
chosen-group s false h = cc

group-scope : (g : ObserverGrant) → str_eq (scope_of g) "group" ≡ true → g.scope ≡ "group"
group-scope g h = chosen-group g.scope (str_eq g.scope "rider" || str_eq g.scope "group") h

-- A rider's view, or a group's.
pub data IsScoped (g : ObserverGrant) (v : SnapshotView) : Type 0 where
  rider_scoped : v.scope ≡ "rider" → v.participants ≡ [] → v.route ≡ null → IsScoped g v
  group_scoped :
      g.scope ≡ "group"
      → v.scope ≡ "group"
      → v.position ≡ null
      → v.assistance ≡ null
      → IsCovered v.freshness v.participants
      → IsScoped g v

module _ (env : Env) (g : ObserverGrant) (snapshot : Fields) (now : ℕ) where
  scoped_view-IsScoped :
      (b : Bool) (assistance : Value) (at : Option ℕ) (v : SnapshotView)
      → str_eq (scope_of g) "group" ≡ b
      → scoped_view env b g snapshot assistance at now ≡ ok v
      → IsScoped g v
  unfolding rider_view group_view
  scoped_view-IsScoped false assistance at v s h =
      subst (IsScoped g) (ok-injective h) (rider_scoped refl refl refl)
  scoped_view-IsScoped true assistance at v s h =
      >>=-invert (raw_participants (get_or "participants" (array nil) snapshot)) _ h (λ raw _ h1.
        >>=-invert (participant_views env now raw) _ h1 (λ ps _ h2.
          subst (IsScoped g) (ok-injective h2)
            (group_scoped (group-scope g s) refl refl refl (worst-IsCovered ps))))

  view-IsScoped : (v : SnapshotView) → view env g snapshot now ≡ ok v → IsScoped g v
  unfolding view
  view-IsScoped v h =
      >>=-invert (recorded_at env (position_for (str_eq (scope_of g) "group") snapshot)) _ h
        (λ at _ h1. >>=-invert (assistance_of (get "assistance" snapshot)) _ h1 (λ assistance _ h2.
          scoped_view-IsScoped (str_eq (scope_of g) "group") assistance at v refl h2))

-- What an observer is answered is the view that a stored grant allows, which is not revoked: that
-- of a rider, without participants and route, or, only if the grant's scope is the group, that of
-- a group, without the publisher's own position and assistance, and at least as stale as every
-- participant who has a position.
pub observer_snapshot-IsScoped :
    (env : Env) (id token : String) (now : ℕ) (db db' : Db) (v : SnapshotView)
    → observer_snapshot env id token now db ≡ (ok v, db')
    → (g : ObserverGrant) × (find_grant id db.observer_grants ≡ some g)
      × (is_some g.revoked_at ≡ false)
      × IsScoped g v
unfolding observer_snapshot read_snapshot
observer_snapshot-IsScoped env id token now db db' v h =
    continue-invert
      (authorized_grant env id token is_observer_token (λ g. g.observer_token_hash) now db) _ db db'
      v (transaction-ok (read_snapshot env id token now) db db' v h)
      (λ g a h1.
        continue-invert (current_state env g g.snapshot_ciphertext) _ _ db' v h1 (λ snapshot _ h2.
          let (found, live) =
            authorized_grant-found env id token is_observer_token (λ g. g.observer_token_hash) now
              db g a in
          (g, found, live, view-IsScoped env g snapshot now v (ap (λ p. p.0) h2))))
