-- ===== src/Presence/Keeps.antt =====
-- Predicates on the database across a request for live positions
-- (apps/server/src/balloon_crumbs_server/service.py, `synchronize_pre_start_presence`).
use balloon_crumbs.Prelude.{inl, inr, ℕ, List}
use balloon_crumbs.Result.{Result-cases}
use balloon_crumbs.Models.{Db}
use balloon_crumbs.Effect.Keeps.{Keeps, transaction-Keeps}
use balloon_crumbs.Presence.Request.{PresenceSyncRequest, check_presence, check_ride}
use balloon_crumbs.Env.{Env}
use balloon_crumbs.Presence.Roster.{Phase, ride_presence_phase, presence_members}
use balloon_crumbs.Presence.Handler.{
  synchronize_pre_start_presence, with_ride, exchange, expire_positions,
}

module _ (env : Env) (nonce : List ℕ) (q : PresenceSyncRequest) (now : ℕ) (P : Db → Type 0)
    (expire : (db : Db) → P db → P (expire_positions q.ride_id now db))
    (serve : (phase : Phase) → Keeps P (exchange env nonce q phase now)) where
  with_ride-Keeps : Keeps P (with_ride env nonce q now)
  unfolding with_ride
  with_ride-Keeps db h =
      let phase = ride_presence_phase q.ride_id db.events in
      let db' = expire_positions q.ride_id now db in
      elim (Result-cases (check_ride env q now db)) [
        | inr (e, refused) ↦ rw refused h
        | inl (_, passed) ↦ elim (Result-cases (presence_members env q.ride_id db.events)) [
          | inr (e, unread) ↦ rw (passed, unread) (expire db h)
          | inl (members, read) ↦ elim (Result-cases (exchange env nonce q phase now db').0) [
            | inr (e, failed) ↦ rw (passed, read, failed) (serve phase db' (expire db h))
            | inl (positions, done) ↦ rw (passed, read, done) (serve phase db' (expire db h))
          ]
        ]
      ]

  pub synchronize_pre_start_presence-Keeps :
      Keeps P (synchronize_pre_start_presence env nonce q now)
  unfolding synchronize_pre_start_presence
  synchronize_pre_start_presence-Keeps db h = elim (Result-cases (check_presence q now)) [
    | inr (e, refused) ↦ rw refused h
    | inl (_, passed) ↦
        rw passed (transaction-Keeps P (with_ride env nonce q now) with_ride-Keeps db h)
  ]
