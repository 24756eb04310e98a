-- ===== src/Sync/Credentials.antt =====
-- Who is answered (apps/server/src/balloon_crumbs_server/service.py, `synchronize`).
use balloon_crumbs.Prelude.{
  subst, ◌≡◌, refl, sym, ap, ◌∙◌, inl, inr, ◌⊎◌, ℕ, String, true, none, some, List, [], arith,
  eq_iff, Option-cases, is_some,
}
use balloon_crumbs.Result.{ok, Result-cases}
use balloon_crumbs.Models.{Ride, StoredEvent, Db, find_ride, put_ride}
use balloon_crumbs.Models.Rides.{find_ride-id, find_ride-put_ride, find_ride-append}
use balloon_crumbs.Env.{Env}
use balloon_crumbs.Text.{compare_digest}
use balloon_crumbs.Crypto.{token_hash}
use balloon_crumbs.Sync.Event.{ValidatedEvent}
use balloon_crumbs.Sync.Store.{Batch, lifecycle, count_event, purge_ride, purge_rows, store_events}
use balloon_crumbs.Sync.Batch.{store_events_induction, count_event-counters}
use balloon_crumbs.Sync.Accounts.{claims_new, claims_found}
use balloon_crumbs.Sync.Handler.{Entropy, get_or_claim_ride, touch_ride, synchronize, within_ride}
use balloon_crumbs.Sync.Response.{SyncResponse}
use balloon_crumbs.Plans.Codes.{err≢ok}
use balloon_crumbs.Sync.Request.{SyncRequest, check_request}
use balloon_crumbs.Sync.Commits.{Commits, Uploads, purged, within_ride-Commits}

-- The table has the ride under its identity, with the credential.
pub record IsHeld (id : String) (hash : List ℕ) (ride : Ride) (rides : List Ride) : Type 0 where
  pub own : ride.id ≡ id
  pub credential : ride.token_hash ≡ hash
  pub found : find_ride id rides ≡ some ride

-- Writing the ride back keeps it.
written-IsHeld :
    (id : String) (hash : List ℕ) (ride ride' : Ride) (rides : List Ride)
    → IsHeld id hash ride rides
    → ride'.id ≡ id
    → ride'.token_hash ≡ hash
    → IsHeld id hash ride' (put_ride ride' rides)
written-IsHeld id hash ride ride' rides h own credential = record {
  own = own;
  credential = credential;
  found =
      find_ride-put_ride ride' rides id
        (subst (λ x. is_some (find_ride x rides) ≡ true) (sym own) (ap is_some h.found))
      ∙ ground (arith, own, eq_iff ride'.id id);
}

count_event-token_hash :
    (env : Env) (now : ℕ) (event : ValidatedEvent) (c : List ℕ) (ride : Ride)
    → (count_event env now event c ride).token_hash ≡ ride.token_hash
unfolding count_event lifecycle
count_event-token_hash env now event c ride = ground arith

purge_ride-same :
    (now : ℕ) (ride : Ride) (events : List StoredEvent)
    → ((purge_ride now ride events).id ≡ ride.id)
      × ((purge_ride now ride events).token_hash ≡ ride.token_hash)
unfolding purge_ride
purge_ride-same now ride events = (refl, refl)

touch_ride-same :
    (env : Env) (now : ℕ) (ride : Ride)
    → ((touch_ride env now ride).id ≡ ride.id)
      × ((touch_ride env now ride).token_hash ≡ ride.token_hash)
unfolding touch_ride
touch_ride-same env now ride = (refl, refl)

module _ (env : Env) (entropy : Entropy) (now : ℕ) where
  claim-IsHeld :
      (id token : String) (db mid : Db) (claimed : Ride)
      → get_or_claim_ride env id token now db ≡ (ok claimed, mid)
      → IsHeld id claimed.token_hash claimed mid.rides
        × ((find_ride id db.rides ≡ none) ⊎ (find_ride id db.rides ≡ some claimed))
  claim-IsHeld id token db mid claimed e = elim (Option-cases (find_ride id db.rides)) [
    | inl missing ↦
        let (own, _, _, rides) = claims_new env id token now db mid claimed e missing in
        (
          record {
            own = own;
            credential = refl;
            found =
                ap (find_ride id) rides
                ∙ find_ride-append claimed db.rides id
                    (subst (λ x. find_ride x db.rides ≡ none) (sym own) missing)
                ∙ ground (arith, own, eq_iff claimed.id id);
          },
          inl missing,
        )
    | inr (r, found) ↦
        let (same, rides) = claims_found env id token now db mid claimed r e found in
        let stored = found ∙ ap some (sym same) in
        (
          record {
            own = find_ride-id db.rides id claimed stored;
            credential = refl;
            found = ap (find_ride id) rides ∙ stored;
          },
          inr stored,
        )
  ]

  touched-IsHeld :
      (id : String) (hash : List ℕ) (ride : Ride) (rides : List Ride)
      → IsHeld id hash ride rides
      → IsHeld id hash (touch_ride env now ride) (put_ride (touch_ride env now ride) rides)
  touched-IsHeld id hash ride rides h =
      let (same, credential) = touch_ride-same env now ride in
      written-IsHeld id hash ride (touch_ride env now ride) rides h (same ∙ h.own)
        (credential ∙ h.credential)

  batch-same :
      (id : String) (hash : List ℕ) (existing : List String) (batch : List ValidatedEvent)
      (b b' : Batch)
      → store_events env entropy.event_nonce now existing batch b ≡ ok b'
      → (b.ride.id ≡ id) × (b.ride.token_hash ≡ hash)
      → (b'.ride.id ≡ id) × (b'.ride.token_hash ≡ hash)
  batch-same id hash existing batch b b' =
      store_events_induction env entropy.event_nonce now existing
        (λ b. (b.ride.id ≡ id) × (b.ride.token_hash ≡ hash))
        (λ event b b' st h.
          let (ride, _, _, _, _) = st.adds in
          (
            ap (λ r. r.id) ride ∙ (count_event-counters env now event st.sealed b.ride).0 ∙ h.0,
            ap (λ r. r.token_hash) ride
                ∙ count_event-token_hash env now event st.sealed b.ride
                ∙ h.1,
          ))
        batch b b'

  -- The ride under an identity has the credential.
  abbrev HasCredential : String → List ℕ → Db → Type 0
  HasCredential id hash db = (r : Ride) × IsHeld id hash r db.rides

  Uploads-HasCredential :
      (id : String) (hash : List ℕ) (batch : List ValidatedEvent) (ride : Ride) (db db' : Db)
      → IsHeld id hash ride db.rides
      → Uploads env entropy now batch ride db db'
      → HasCredential id hash db'
  Uploads-HasCredential id hash batch ride db db' h u =
      let s = u.saves in
      let (own, credential) =
        batch-same id hash s.existing batch
          (record { ride = ride; added = []; membership = []; next_row = db.next_row }) s.b s.stored
          (h.own, h.credential) in
      let saved : IsHeld id hash u.ride' u.saved.rides =
        rw (s.rides, s.same_ride)
          (written-IsHeld id hash ride s.b.ride db.rides h own credential) in
      (
        touch_ride env now u.ride',
        subst (IsHeld id hash (touch_ride env now u.ride')) (sym u.rides)
            (touched-IsHeld id hash u.ride' u.saved.rides saved),
      )

  purged-IsHeld :
      (q : SyncRequest) (mid : Db) (claimed : Ride) (hash : List ℕ)
      → IsHeld q.ride_id hash claimed mid.rides
      → IsHeld q.ride_id hash
          (purge_ride now claimed mid.events)
          (purged env entropy now q claimed mid).rides
  unfolding purge_rows
  purged-IsHeld q mid claimed hash h =
      let (same, credential) = purge_ride-same now claimed mid.events in
      written-IsHeld q.ride_id hash claimed (purge_ride now claimed mid.events) mid.rides h
        (same ∙ h.own) (credential ∙ h.credential)

  Commits-HasCredential :
      (q : SyncRequest) (batch : List ValidatedEvent) (db db' : Db)
      (c : Commits env entropy now q batch db db')
      → HasCredential q.ride_id c.claimed.token_hash db'
  Commits-HasCredential q batch db db' c =
      let p = purged env entropy now q c.claimed c.mid in
      let ride = purge_ride now c.claimed c.mid.events in
      let hash = c.claimed.token_hash in
      let (claimed, _) = claim-IsHeld q.ride_id q.bearer_token db c.mid c.claimed c.claims in
      let held = purged-IsHeld q c.mid c.claimed hash claimed in
      elim c.outcome [
        | inl (r, _, w) ↦ (
          touch_ride env now ride,
          subst (IsHeld q.ride_id hash (touch_ride env now ride)) (sym w.0)
              (touched-IsHeld q.ride_id hash ride p.rides held),
        )
        | inr u ↦ Uploads-HasCredential q.ride_id hash batch ride p db' held u
      ]

  -- What is known of a request that is answered: the ride is stored afterwards with the credential
  -- that the request shows, and had this credential before, unless nobody had claimed it.
  pub record IsAuthentic (q : SyncRequest) (db db' : Db) : Type 0 where
    pub shown : List ℕ
    pub hashed : token_hash env q.bearer_token ≡ ok shown
    pub ride : Ride
    pub stored : find_ride q.ride_id db'.rides ≡ some ride
    pub same : compare_digest ride.token_hash shown ≡ true
    pub before :
        (find_ride q.ride_id db.rides ≡ none)
        ⊎ ((r : Ride) × (find_ride q.ride_id db.rides ≡ some r) × (r.token_hash ≡ ride.token_hash))

  Commits-IsAuthentic :
      (q : SyncRequest) (batch : List ValidatedEvent) (db db' : Db)
      → Commits env entropy now q batch db db'
      → IsAuthentic q db db'
  Commits-IsAuthentic q batch db db' c =
      let (ride, held) = Commits-HasCredential q batch db db' c in
      let (_, earlier) = claim-IsHeld q.ride_id q.bearer_token db c.mid c.claimed c.claims in
      record {
        shown = c.hash;
        hashed = c.hashed;
        ride = ride;
        stored = held.found;
        same = subst (λ h. compare_digest h c.hash ≡ true) (sym held.credential) c.authentic;
        before = elim earlier [
          | inl missing ↦ inl missing
          | inr found ↦ inr (c.claimed, found, sym held.credential)
        ];
      }

  -- Who is answered has shown the credential of the ride: the ride is stored afterwards with the
  -- credential that the request shows, and had this credential before too, unless nobody had
  -- claimed it.
  pub synchronize-IsAuthentic :
      (q : SyncRequest) (db : Db) (response : SyncResponse)
      → (synchronize env entropy q now db).0 ≡ ok response
      → IsAuthentic q db (synchronize env entropy q now db).1
  unfolding synchronize
  synchronize-IsAuthentic q db response h = elim (Result-cases (check_request env q now)) [
    | inr (f, refused) ↦ absurd (err≢ok (rw refused at h))
    | inl (checked, accepted) ↦
        elim (Result-cases (within_ride env entropy q checked.1 checked.0 now db).0) [
          | inr (f, raised) ↦ absurd (err≢ok (rw (accepted, raised) at h))
          | inl (answer, returned) ↦
              rw (accepted, returned)
                (Commits-IsAuthentic q checked.1 db
                  (within_ride env entropy q checked.1 checked.0 now db).1
                  (within_ride-Commits env entropy now q checked.1 checked.0 db answer returned))
        ]
  ]
