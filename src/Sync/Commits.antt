-- ===== src/Sync/Commits.antt =====
-- What the parts of a synchronisation have done to the rides and the events when they return
-- (apps/server/src/balloon_crumbs_server/service.py, `synchronize`).
use balloon_crumbs.Text.{compare_digest}
use balloon_crumbs.Prelude.{
  ◌≡◌, refl, ◌⊎◌, inl, inr, ℕ, String, true, some, List, [], ◌∷◌, ◌++◌, arith, Bool-cases,
  Option-cases,
}
use balloon_crumbs.Result.{ok, Result-cases}
use balloon_crumbs.Models.{Ride, IdempotencyReplay, Db, put_ride}
use balloon_crumbs.Env.{Env}
use balloon_crumbs.Crypto.{token_hash}
use balloon_crumbs.Membership.{project_membership_events}
use balloon_crumbs.Sync.Event.{ValidatedEvent}
use balloon_crumbs.Sync.Store.{
  Batch, store_events, validate_event_conflicts, purge_ride, purge_rows,
}
use balloon_crumbs.Sync.Handler.{
  Entropy, get_or_claim_ride, touch_ride, answer_replay, save_batch, upload, keep_replay,
  discard_positions, within_ride, find_replay,
}
use balloon_crumbs.Sync.Request.{SyncRequest, event_ids}
use balloon_crumbs.Sync.Response.{build_response, SyncResponse}

-- A saved batch: its loop has returned, and its rows and its ride are written.
pub record Saves (env : Env) (entropy : Entropy) (now : ℕ) (ride : Ride)
    (batch : List ValidatedEvent) (db : Db) (ride' : Ride) (db' : Db) : Type 0 where
  pub existing : List String
  pub b : Batch
  pub unconflicted : validate_event_conflicts ride.id batch db.events ≡ ok existing
  pub stored :
      store_events env entropy.event_nonce now existing batch
        (record { ride = ride; added = []; membership = []; next_row = db.next_row })
      ≡ ok b
  pub same_ride : ride' ≡ b.ride
  pub rides : db'.rides ≡ put_ride b.ride db.rides
  pub events : db'.events ≡ db.events ++ b.added
  pub next_row : db'.next_row ≡ b.next_row
  pub projected : project_membership_events ride.id b.membership db.members ≡ ok db'.members

module _ (env : Env) (entropy : Entropy) (now : ℕ) where
  pub save_batch-Saves :
      (ride : Ride) (batch : List ValidatedEvent) (db : Db) (ride' : Ride)
      → (save_batch env entropy now ride batch db).0 ≡ ok ride'
      → Saves env entropy now ride batch db ride' (save_batch env entropy now ride batch db).1
  unfolding save_batch
  save_batch-Saves ride batch db ride' e =
      elim (Result-cases (validate_event_conflicts ride.id batch db.events)) [
        | inr (f, conflict) ↦ absurd (ground (arith, conflict))
        | inl (existing, unconflicted) ↦
            let start : Batch = record {
              ride = ride;
              added = [];
              membership = [];
              next_row = db.next_row;
            } in
            elim (Result-cases (store_events env entropy.event_nonce now existing batch start)) [
              | inr (f, failed) ↦ absurd (ground (arith, unconflicted, failed))
              | inl (b, stored) ↦
                  elim (Result-cases (project_membership_events ride.id b.membership db.members)) [
                    | inr (f, failed) ↦ absurd (ground (arith, unconflicted, stored, failed))
                    | inl (members, projected) ↦ record {
                      existing = existing;
                      b = b;
                      unconflicted = unconflicted;
                      stored = stored;
                      same_ride = ground (arith, unconflicted, stored, projected);
                      rides = rw (unconflicted, stored, projected) refl;
                      events = rw (unconflicted, stored, projected) refl;
                      next_row = rw (unconflicted, stored, projected) refl;
                      projected = rw (unconflicted, stored, projected) refl;
                    }
                  ]
            ]
      ]

  -- An upload that returns has saved its batch, and has then written to no event and to no ride
  -- but its own.
  pub record Uploads (batch : List ValidatedEvent) (ride : Ride) (db db' : Db) : Type 0 where
    pub ride' : Ride
    pub saved : Db
    pub saves : Saves env entropy now ride batch db ride' saved
    pub rides : db'.rides ≡ put_ride (touch_ride env now ride') saved.rides
    pub events : db'.events ≡ saved.events
    pub next_row : db'.next_row ≡ saved.next_row

  keep_replay-keeps :
      (q : SyncRequest) (batch : List ValidatedEvent) (response : SyncResponse) (db : Db)
      → let db' = (keep_replay env entropy q batch response now db).1 in
        (db'.rides ≡ db.rides) × (db'.events ≡ db.events) × (db'.next_row ≡ db.next_row)
  unfolding keep_replay
  keep_replay-keeps q [] response db = (refl, refl, refl)
  keep_replay-keeps q (ev ∷ batch) response db = ground arith

  pub upload-Uploads :
      (q : SyncRequest) (batch : List ValidatedEvent) (ride : Ride) (cursor : ℕ) (db : Db)
      (response : SyncResponse)
      → (upload env entropy q batch ride cursor now db).0 ≡ ok response
      → Uploads batch ride db (upload env entropy q batch ride cursor now db).1
  unfolding upload discard_positions
  upload-Uploads q batch ride cursor db response e =
      let saved = (save_batch env entropy now ride batch db).1 in
      let kept = λ (r : SyncResponse).
        keep_replay-keeps q batch r (discard_positions env q.ride_id batch saved) in
      elim (Result-cases (save_batch env entropy now ride batch db).0) [
        | inr (f, failed) ↦ absurd (ground (arith, failed))
        | inl (ride', done) ↦
            elim (Result-cases
              (build_response env q.ride_id (event_ids batch) cursor now saved.events)) [
                | inr (f, failed) ↦ absurd (ground (arith, done, failed))
                | inl (r, built) ↦ record {
                  ride' = ride';
                  saved = saved;
                  saves = save_batch-Saves ride batch db ride' done;
                  rides = ground (arith, done, built, kept r);
                  events = ground (arith, done, built, kept r);
                  next_row = ground (arith, done, built, kept r);
                }
              ]
      ]

  -- A repeated upload writes to its ride alone.
  abbrev pub Replays : Ride → Db → Db → Type 0
  Replays ride db db' =
      (db'.rides ≡ put_ride (touch_ride env now ride) db.rides)
      × (db'.events ≡ db.events)
      × (db'.next_row ≡ db.next_row)

  pub answer_replay-Replays :
      (q : SyncRequest) (r : IdempotencyReplay) (ride : Ride) (cursor : ℕ) (db : Db)
      (response : SyncResponse)
      → (answer_replay env q r ride cursor now db).0 ≡ ok response
      → Replays ride db (answer_replay env q r ride cursor now db).1
  unfolding answer_replay
  answer_replay-Replays q r ride cursor db response e = ground arith

  -- the database after the ride's expired rows are purged
  abbrev pub purged : SyncRequest → Ride → Db → Db
  purged q claimed db =
      let db' = purge_rows now q.ride_id db in
      record db' { rides = put_ride (purge_ride now claimed db.events) db'.rides }

  -- A synchronisation that returns has claimed its ride, has accepted the credential, has purged
  -- the ride, and has then answered a replay or uploaded a batch.
  pub record Commits (q : SyncRequest) (batch : List ValidatedEvent) (db db' : Db) : Type 0 where
    pub claimed : Ride
    pub mid : Db
    pub hash : List ℕ
    pub claims : get_or_claim_ride env q.ride_id q.bearer_token now db ≡ (ok claimed, mid)
    pub hashed : token_hash env q.bearer_token ≡ ok hash
    pub authentic : compare_digest claimed.token_hash hash ≡ true
    pub outcome :
        ((r : IdempotencyReplay) × (find_replay env q batch now (purged q claimed mid) ≡ some r)
          × Replays (purge_ride now claimed mid.events) (purged q claimed mid) db')
        ⊎ Uploads batch (purge_ride now claimed mid.events) (purged q claimed mid) db'

  pub within_ride-Commits :
      (q : SyncRequest) (batch : List ValidatedEvent) (cursor : ℕ) (db : Db)
      (response : SyncResponse)
      → (within_ride env entropy q batch cursor now db).0 ≡ ok response
      → Commits q batch db (within_ride env entropy q batch cursor now db).1
  unfolding within_ride
  within_ride-Commits q batch cursor db response e =
      let mid = (get_or_claim_ride env q.ride_id q.bearer_token now db).1 in
      elim (Result-cases (get_or_claim_ride env q.ride_id q.bearer_token now db).0) [
        | inr (f, failed) ↦ absurd (ground (arith, failed))
        | inl (claimed, claims) ↦ elim (Result-cases (token_hash env q.bearer_token)) [
          | inr (f, failed) ↦ absurd (ground (arith, claims, failed))
          | inl (hash, hashed) ↦ elim (Bool-cases (compare_digest claimed.token_hash hash)) [
            | inr failed ↦ absurd (ground (arith, claims, hashed, failed))
            | inl authentic ↦
                elim (Option-cases (find_replay env q batch now (purged q claimed mid))) [
                  | inl unseen ↦ record {
                    claimed = claimed;
                    mid = mid;
                    hash = hash;
                    claims = ground (arith, claims);
                    hashed = hashed;
                    authentic = authentic;
                    outcome =
                        let same : within_ride env entropy q batch cursor now db
                            ≡ upload env entropy q batch (purge_ride now claimed mid.events) cursor
                                now (purged q claimed mid) =
                          ground (arith, claims, hashed, authentic, unseen) in
                        inr (
                          rw same (
                            upload-Uploads q batch (purge_ride now claimed mid.events) cursor
                              (purged q claimed mid) response (rw same at e)));
                  }
                  | inr (r, seen) ↦ record {
                    claimed = claimed;
                    mid = mid;
                    hash = hash;
                    claims = ground (arith, claims);
                    hashed = hashed;
                    authentic = authentic;
                    outcome =
                        let same : within_ride env entropy q batch cursor now db
                            ≡ answer_replay env q r (purge_ride now claimed mid.events) cursor now
                                (purged q claimed mid) =
                          ground (arith, claims, hashed, authentic, seen) in
                        inl (
                          r,
                          seen,
                          rw same (
                              answer_replay-Replays q r (purge_ride now claimed mid.events) cursor
                                (purged q claimed mid) response (rw same at e)),
                        );
                  }
                ]
          ]
        ]
      ]
