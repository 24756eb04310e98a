-- ===== src/Sync/Isolation.antt =====
-- What a synchronisation leaves alone
-- (apps/server/src/balloon_crumbs_server/service.py, `synchronize`).
use balloon_crumbs.Prelude.{
  subst, ◌≡◌, refl, sym, ap, ◌∙◌, inl, inr, ℕ, String, false, not, List, [], ◌∷◌, ◌++◌, arith,
  str_eq, eq_iff, Option-cases, keep, keep-append, append-nil,
}
use balloon_crumbs.Result.{ok, Result-cases}
use balloon_crumbs.Models.{Ride, StoredEvent, Db, find_ride, put_ride}
use balloon_crumbs.Models.Rides.{find_ride-id}
use balloon_crumbs.Env.{Env}
use balloon_crumbs.Sync.Event.{ValidatedEvent}
use balloon_crumbs.Sync.Store.{
  Batch, new_row, event_of, expired_event, purge_ride, purge_rows, store_events,
}
use balloon_crumbs.Sync.Batch.{store_events_induction, count_event-counters}
use balloon_crumbs.Sync.Accounts.{claims_events, claims_new, claims_found}
use balloon_crumbs.Sync.Handler.{Entropy, get_or_claim_ride, touch_ride, synchronize, within_ride}
use balloon_crumbs.Sync.Request.{SyncRequest, check_request}
use balloon_crumbs.Sync.Commits.{Commits, Uploads, purged, within_ride-Commits}

-- The row and the stored events of a ride are the same in two databases.
abbrev pub IsUntouched : String → Db → Db → Type 0
IsUntouched i db db' =
    (find_ride i db'.rides ≡ find_ride i db.rides)
    × (keep (event_of i) db'.events ≡ keep (event_of i) db.events)

put_ride-other :
    (r : Ride) (i : String) (rides : List Ride)
    → str_eq r.id i ≡ false
    → find_ride i (put_ride r rides) ≡ find_ride i rides
unfolding put_ride
put_ride-other r i [] h = refl
put_ride-other r i (x ∷ rides) h =
    ground (arith, h, put_ride-other r i rides, eq_iff x.id r.id, eq_iff x.id i, eq_iff r.id i)

append-other :
    (r : Ride) (i : String) (rides : List Ride)
    → str_eq r.id i ≡ false
    → find_ride i (rides ++ r ∷ []) ≡ find_ride i rides
append-other r i [] h = ground (arith, h)
append-other r i (x ∷ rides) h = ground (arith, append-other r i rides h)

-- Another ride's events do not expire with this one's.
others-kept :
    (id i : String) (now : ℕ) (events : List StoredEvent)
    → str_eq id i ≡ false
    → keep (event_of i) (keep (λ e. not (expired_event id now e)) events) ≡ keep (event_of i) events
others-kept id i now [] h = refl
others-kept id i now (e ∷ events) h =
    ground (
      arith,
      h,
      others-kept id i now events h,
      eq_iff e.ride_id id,
      eq_iff e.ride_id i,
      eq_iff id i,
    )

row-other :
    (env : Env) (now : ℕ) (event : ValidatedEvent) (c : List ℕ) (b : Batch) (i : String)
    → str_eq b.ride.id i ≡ false
    → keep (event_of i) (new_row env now event c b ∷ []) ≡ []
unfolding new_row
row-other env now event c b i h = ground (arith, h)

module _ (env : Env) (entropy : Entropy) (now : ℕ) (i : String) where
  claim-other :
      (id token : String) (db mid : Db) (claimed : Ride)
      → str_eq id i ≡ false
      → get_or_claim_ride env id token now db ≡ (ok claimed, mid)
      → (claimed.id ≡ id) × (find_ride i mid.rides ≡ find_ride i db.rides)
  claim-other id token db mid claimed apart e = elim (Option-cases (find_ride id db.rides)) [
    | inl missing ↦
        let (same, _, _, rides) = claims_new env id token now db mid claimed e missing in
        (
          same,
          ap (find_ride i) rides
              ∙ append-other claimed i db.rides (subst (λ x. str_eq x i ≡ false) (sym same) apart),
        )
    | inr (r, found) ↦
        let (same, rides) = claims_found env id token now db mid claimed r e found in
        (ap (λ x. x.id) same ∙ find_ride-id db.rides id r found, ap (find_ride i) rides)
  ]

  -- The rows of a batch are the ride's own.
  store_events-other :
      (id : String) (existing : List String) (batch : List ValidatedEvent) (b b' : Batch)
      → str_eq id i ≡ false
      → store_events env entropy.event_nonce now existing batch b ≡ ok b'
      → (b.ride.id ≡ id) × (keep (event_of i) b.added ≡ [])
      → (b'.ride.id ≡ id) × (keep (event_of i) b'.added ≡ [])
  store_events-other id existing batch b b' apart =
      store_events_induction env entropy.event_nonce now existing
        (λ b. (b.ride.id ≡ id) × (keep (event_of i) b.added ≡ []))
        (λ event b b' st h.
          let (ride, added, _, _, _) = st.adds in
          let row = new_row env now event st.sealed b in
          (
            ap (λ r. r.id) ride ∙ (count_event-counters env now event st.sealed b.ride).0 ∙ h.0,
            ap (keep (event_of i)) added
                ∙ keep-append (event_of i) b.added (row ∷ [])
                ∙ ap (λ (xs : List StoredEvent). xs ++ keep (event_of i) (row ∷ [])) h.1
                ∙ row-other env now event st.sealed b i
                    (subst (λ x. str_eq x i ≡ false) (sym h.0) apart),
          ))
        batch b b'

  purged-IsUntouched :
      (q : SyncRequest) (db mid : Db) (claimed : Ride)
      → str_eq q.ride_id i ≡ false
      → get_or_claim_ride env q.ride_id q.bearer_token now db ≡ (ok claimed, mid)
      → IsUntouched i db (purged env entropy now q claimed mid)
  unfolding purge_rows purge_ride
  purged-IsUntouched q db mid claimed apart e =
      let (own, rides) = claim-other q.ride_id q.bearer_token db mid claimed apart e in
      let (events, _) = claims_events env q.ride_id q.bearer_token now db mid claimed e in
      (
        put_ride-other (purge_ride now claimed mid.events) i mid.rides
              (subst (λ x. str_eq x i ≡ false) (sym own) apart)
            ∙ rides,
        others-kept q.ride_id i now mid.events apart ∙ ap (keep (event_of i)) events,
      )

  touch-id : (ride : Ride) → (touch_ride env now ride).id ≡ ride.id
  unfolding touch_ride
  touch-id ride = refl

  purge-id : (ride : Ride) (events : List StoredEvent) → (purge_ride now ride events).id ≡ ride.id
  unfolding purge_ride
  purge-id ride events = refl

  Uploads-IsUntouched :
      (batch : List ValidatedEvent) (ride : Ride) (db db' : Db)
      → Uploads env entropy now batch ride db db'
      → str_eq ride.id i ≡ false
      → IsUntouched i db db'
  Uploads-IsUntouched batch ride db db' u apart =
      let s = u.saves in
      let (own, added) =
        store_events-other ride.id s.existing batch
          (record { ride = ride; added = []; membership = []; next_row = db.next_row }) s.b apart
          s.stored (refl, refl) in
      let other : str_eq s.b.ride.id i ≡ false = subst (λ x. str_eq x i ≡ false) (sym own) apart in
      let touched : str_eq (touch_ride env now u.ride').id i ≡ false =
        subst (λ x. str_eq x i ≡ false) (sym (touch-id u.ride' ∙ ap (λ r. r.id) s.same_ride))
          other in
      (
        ap (find_ride i) u.rides
            ∙ put_ride-other (touch_ride env now u.ride') i u.saved.rides touched
            ∙ ap (find_ride i) s.rides
            ∙ put_ride-other s.b.ride i db.rides other,
        ap (keep (event_of i)) (u.events ∙ s.events)
            ∙ keep-append (event_of i) db.events s.b.added
            ∙ ap (λ (xs : List StoredEvent). keep (event_of i) db.events ++ xs) added
            ∙ append-nil (keep (event_of i) db.events),
      )

  Commits-IsUntouched :
      (q : SyncRequest) (batch : List ValidatedEvent) (db db' : Db)
      → str_eq q.ride_id i ≡ false
      → Commits env entropy now q batch db db'
      → IsUntouched i db db'
  Commits-IsUntouched q batch db db' apart c =
      let p = purged env entropy now q c.claimed c.mid in
      let ride = purge_ride now c.claimed c.mid.events in
      let before = purged-IsUntouched q db c.mid c.claimed apart c.claims in
      let (own, _) = claim-other q.ride_id q.bearer_token db c.mid c.claimed apart c.claims in
      let other : str_eq ride.id i ≡ false =
        subst (λ x. str_eq x i ≡ false) (sym (purge-id c.claimed c.mid.events ∙ own)) apart in
      elim c.outcome [
        | inl (r, _, w) ↦ (
          ap (find_ride i) w.0
              ∙ put_ride-other (touch_ride env now ride) i p.rides
                  (subst (λ x. str_eq x i ≡ false) (sym (touch-id ride)) other)
              ∙ before.0,
          ap (keep (event_of i)) w.1 ∙ before.1,
        )
        | inr u ↦
            let after = Uploads-IsUntouched batch ride p db' u other in
            (after.0 ∙ before.0, after.1 ∙ before.1)
      ]

  -- A synchronisation of one ride changes neither the row nor the stored events of any other,
  -- whatever the request and its outcome.
  pub synchronize-IsUntouched :
      (q : SyncRequest) (db : Db)
      → str_eq q.ride_id i ≡ false
      → IsUntouched i db (synchronize env entropy q now db).1
  unfolding synchronize
  synchronize-IsUntouched q db apart = elim (Result-cases (check_request env q now)) [
    | inr (f, refused) ↦ rw refused (refl, refl)
    | inl (checked, accepted) ↦
        elim (Result-cases (within_ride env entropy q checked.1 checked.0 now db).0) [
          | inr (f, raised) ↦ rw (accepted, raised) (refl, refl)
          | inl (response, returned) ↦
              rw (accepted, returned)
                (Commits-IsUntouched q checked.1 db
                  (within_ride env entropy q checked.1 checked.0 now db).1 apart
                  (within_ride-Commits env entropy now q checked.1 checked.0 db response returned))
        ]
  ]
