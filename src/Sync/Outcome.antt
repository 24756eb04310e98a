-- ===== src/Sync/Outcome.antt =====
-- Invariants of the database across a whole synchronisation
-- (apps/server/src/balloon_crumbs_server/service.py, `synchronize`).
use balloon_crumbs.Prelude.{◌≡◌, inl, inr, ℕ, false, List, ◌++◌, arith}
use balloon_crumbs.Result.{ok, Result-cases}
use balloon_crumbs.Models.{Ride, Db, put_ride}
use balloon_crumbs.Env.{Env}
use balloon_crumbs.Sync.Event.{ValidatedEvent}
use balloon_crumbs.Sync.Store.{purge_ride, purge_rows}
use balloon_crumbs.Sync.Accounts.{
  IsAccounted, Holds, purge-Holds, touch-Holds, store_events-Holds, claim-Holds,
}
use balloon_crumbs.Sync.Handler.{Entropy, get_or_claim_ride, synchronize, within_ride}
use balloon_crumbs.Sync.Request.{SyncRequest, event_ids, repeats, check_request}
use balloon_crumbs.Sync.Commits.{Commits, Uploads, purged, within_ride-Commits}

-- The events of an accepted request have different identities.
pub check_request-distinct :
    (env : Env) (q : SyncRequest) (now : ℕ) (checked : ℕ × List ValidatedEvent)
    → check_request env q now ≡ ok checked
    → repeats (event_ids checked.1) ≡ false
unfolding check_request
check_request-distinct env q now checked e = ground arith

module _ (env : Env) (entropy : Entropy) (now : ℕ) where
  -- A predicate that every committed synchronisation keeps is kept by `synchronize`: what raises
  -- changes nothing.
  pub synchronize_keeps :
      (P : Db → Type 0)
      → ((q : SyncRequest) (batch : List ValidatedEvent) (db db' : Db)
          → Commits env entropy now q batch db db'
          → repeats (event_ids batch) ≡ false
          → P db
          → P db')
      → (q : SyncRequest) (db : Db) → P db
      → P (synchronize env entropy q now db).1
  unfolding synchronize
  synchronize_keeps P step q db h = elim (Result-cases (check_request env q now)) [
    | inr (f, refused) ↦ rw refused h
    | inl (checked, accepted) ↦
        elim (Result-cases (within_ride env entropy q checked.1 checked.0 now db).0) [
          | inr (f, raised) ↦ rw (accepted, raised) h
          | inl (response, returned) ↦
              rw (accepted, returned)
                (step q checked.1 db (within_ride env entropy q checked.1 checked.0 now db).1
                  (within_ride-Commits env entropy now q checked.1 checked.0 db response returned)
                  (check_request-distinct env q now checked accepted) h)
        ]
  ]

  purged-Holds :
      (q : SyncRequest) (db mid : Db) (claimed : Ride)
      → get_or_claim_ride env q.ride_id q.bearer_token now db ≡ (ok claimed, mid)
      → IsAccounted db.rides db.events
      → let db' = purged env entropy now q claimed mid in
        Holds (purge_ride now claimed mid.events) db'.rides db'.events
  unfolding purge_rows
  purged-Holds q db mid claimed claims h =
      let (holds, named) = claim-Holds env q.ride_id q.bearer_token now db mid claimed claims h in
      rw (← named) (purge-Holds claimed now mid.rides mid.events holds)

  Uploads-IsAccounted :
      (batch : List ValidatedEvent) (ride : Ride) (db db' : Db)
      → Uploads env entropy now batch ride db db'
      → Holds ride db.rides db.events
      → IsAccounted db'.rides db'.events
  Uploads-IsAccounted batch ride db db' u h =
      let s = u.saves in
      let saved =
        store_events-Holds env entropy.event_nonce now s.existing batch ride db.next_row db.rides
          db.events s.b h s.stored in
      let touched =
        touch-Holds env s.b.ride now (put_ride s.b.ride db.rides) (db.events ++ s.b.added) saved in
      rw (u.rides, u.events, s.rides, s.events, s.same_ride) touched.accounted

  Commits-IsAccounted :
      (q : SyncRequest) (batch : List ValidatedEvent) (db db' : Db)
      → Commits env entropy now q batch db db'
      → repeats (event_ids batch) ≡ false
      → IsAccounted db.rides db.events
      → IsAccounted db'.rides db'.events
  Commits-IsAccounted q batch db db' c distinct h =
      let p = purged env entropy now q c.claimed c.mid in
      let ride = purge_ride now c.claimed c.mid.events in
      let holds = purged-Holds q db c.mid c.claimed c.claims h in
      elim c.outcome [
        | inl (r, _, w) ↦ rw (w.0, w.1) (touch-Holds env ride now p.rides p.events holds).accounted
        | inr u ↦ Uploads-IsAccounted batch ride p db' u holds
      ]

  -- If every ride counts its stored events and their bytes, then so it does after any
  -- synchronisation, accepted or refused.
  pub synchronize-IsAccounted :
      (q : SyncRequest) (db : Db)
      → IsAccounted db.rides db.events
      → let db' = (synchronize env entropy q now db).1 in IsAccounted db'.rides db'.events
  synchronize-IsAccounted =
      synchronize_keeps (λ db. IsAccounted db.rides db.events) Commits-IsAccounted
