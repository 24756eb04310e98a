-- ===== src/Sync/Accounts.antt =====
-- The counters of the rides across the steps of a synchronisation
-- (apps/server/src/balloon_crumbs_server/service.py).
use balloon_crumbs.Prelude.{
  ◌≡◌, refl, sym, ap, ◌∙◌, inl, inr, ℕ, ◌-◌, String, true, false, not, ◌&&◌, Option, none, some,
  List, [], ◌∷◌, ◌++◌, arith, str_eq, eq_iff, if◌then◌else◌, Option-cases, is_some, keep, sum_of,
  sum_of-append, sum_of-keep, eq_refl,
}
use balloon_crumbs.Result.{ok}
use balloon_crumbs.Models.{Ride, StoredEvent, Db, find_ride, put_ride}
use balloon_crumbs.Models.Rides.{find_ride-put_ride, find_ride-append, find_ride-id}
use balloon_crumbs.Env.{Env}
use balloon_crumbs.Sync.Event.{ValidatedEvent}
use balloon_crumbs.Sync.Store.{Batch, store_events, expired_event, event_of, purge_ride}
use balloon_crumbs.Sync.Usage.{size, count_in, bytes_in, store_events-IsTallied}
use balloon_crumbs.Sync.Handler.{get_or_claim_ride, touch_ride}

abbrev pub ride_count : Option Ride → ℕ
ride_count none = 0
ride_count (some r) = r.stored_event_count

abbrev pub ride_bytes : Option Ride → ℕ
ride_bytes none = 0
ride_bytes (some r) = r.stored_event_bytes

-- Every ride counts its stored events and their bytes; a ride that is not there has none.
pub record IsAccounted (rides : List Ride) (events : List StoredEvent) : Type 0 where
  pub counted : (id : String) → ride_count (find_ride id rides) ≡ count_in id events
  pub sized : (id : String) → ride_bytes (find_ride id rides) ≡ bytes_in id events

-- the ride that the session holds is the stored one
pub record Holds (ride : Ride) (rides : List Ride) (events : List StoredEvent) : Type 0 where
  pub accounted : IsAccounted rides events
  pub held : find_ride ride.id rides ≡ some ride

-- Writing back the ride that the session holds keeps the accounts, if the ride counts its new
-- events and the events of other rides are as many as before.
put_ride-Holds :
    (ride ride' : Ride) (rides : List Ride) (events events' : List StoredEvent)
    → Holds ride rides events
    → ride'.id ≡ ride.id
    → ((i : String)
        → (if str_eq ride.id i then ride'.stored_event_count else count_in i events)
          ≡ count_in i events')
    → ((i : String)
        → (if str_eq ride.id i then ride'.stored_event_bytes else bytes_in i events)
          ≡ bytes_in i events')
    → Holds ride' (put_ride ride' rides) events'
put_ride-Holds ride ride' rides events events' h same counts bytes =
    let there : is_some (find_ride ride'.id rides) ≡ true = rw (same, h.held) refl in
    record {
      accounted = record {
        counted = λ i.
            rw (find_ride-put_ride ride' rides i there, same)
              (ground (arith, counts i, h.accounted.counted i));
        sized = λ i.
            rw (find_ride-put_ride ride' rides i there, same)
              (ground (arith, bytes i, h.accounted.sized i));
      };
      held = rw (find_ride-put_ride ride' rides ride'.id there, eq_refl ride'.id);
    }

-- the expired rows of one ride are none of the rows of another
count_expired_other :
    (id i : String) (now : ℕ) (f : StoredEvent → ℕ) (events : List StoredEvent)
    → str_eq id i ≡ false
    → sum_of (λ e. event_of i e && expired_event id now e) f events ≡ 0
count_expired_other id i now f [] h = refl
count_expired_other id i now f (e ∷ events) h = ground (
  arith,
  count_expired_other id i now f events h,
  eq_iff e.ride_id i,
  eq_iff e.ride_id id,
  eq_iff id i,
)

count_expired_self :
    (id : String) (now : ℕ) (f : StoredEvent → ℕ) (events : List StoredEvent)
    → sum_of (λ e. event_of id e && expired_event id now e) f events
      ≡ sum_of (expired_event id now) f events
count_expired_self id now f [] = refl
count_expired_self id now f (e ∷ events) = ground (arith, count_expired_self id now f events)

purge-sum :
    (ride : Ride) (now : ℕ) (f : StoredEvent → ℕ) (rides : List Ride) (events : List StoredEvent)
    (i : String)
    → (if str_eq ride.id i
        then sum_of (event_of ride.id) f events - sum_of (expired_event ride.id now) f events
        else sum_of (event_of i) f events)
      ≡ sum_of (event_of i) f (keep (λ e. not (expired_event ride.id now e)) events)
purge-sum ride now f rides events i = ground (
  arith,
  eq_iff ride.id i,
  sum_of-keep (event_of i) (expired_event ride.id now) f events,
  sum_of-keep (event_of ride.id) (expired_event ride.id now) f events,
  count_expired_other ride.id i now f events,
  count_expired_self ride.id now f events,
)

-- Purging the expired events of a ride keeps the accounts.
pub purge-Holds :
    (ride : Ride) (now : ℕ) (rides : List Ride) (events : List StoredEvent)
    → Holds ride rides events
    → Holds
        (purge_ride now ride events)
        (put_ride (purge_ride now ride events) rides)
        (keep (λ e. not (expired_event ride.id now e)) events)
unfolding purge_ride
purge-Holds ride now rides events h =
    put_ride-Holds ride (purge_ride now ride events) rides events
      (keep (λ e. not (expired_event ride.id now e)) events) h refl
      (λ i.
        ground
          (arith, purge-sum ride now (λ _. 1) rides events i, h.accounted.counted ride.id, h.held))
      (λ i.
        ground (arith, purge-sum ride now size rides events i, h.accounted.sized ride.id, h.held))

pub touch-Holds :
    (env : Env) (ride : Ride) (now : ℕ) (rides : List Ride) (events : List StoredEvent)
    → Holds ride rides events
    → Holds (touch_ride env now ride) (put_ride (touch_ride env now ride) rides) events
unfolding touch_ride
touch-Holds env ride now rides events h =
    put_ride-Holds ride (touch_ride env now ride) rides events events h refl
      (λ i. ground (arith, h.accounted.counted ride.id, h.held, eq_iff ride.id i))
      (λ i. ground (arith, h.accounted.sized ride.id, h.held, eq_iff ride.id i))

-- Storing a batch counts what it adds.
pub store_events-Holds :
    (env : Env) (nonces : ℕ → List ℕ) (now : ℕ) (existing : List String)
    (batch : List ValidatedEvent) (ride : Ride) (next : ℕ) (rides : List Ride)
    (events : List StoredEvent) (b : Batch)
    → Holds ride rides events
    → store_events env nonces now existing batch
        (record { ride = ride; added = []; membership = []; next_row = next })
      ≡ ok b
    → Holds b.ride (put_ride b.ride rides) (events ++ b.added)
store_events-Holds env nonces now existing batch ride next rides events b h e =
    let t =
      store_events-IsTallied env nonces now existing ride.id ride.stored_event_count
        ride.stored_event_bytes batch
        (record { ride = ride; added = []; membership = []; next_row = next }) b e
        (record {
          same_ride = refl;
          counted = omega arith;
          sized = omega arith;
          owned = λ i k. refl;
        }) in
    put_ride-Holds ride b.ride rides events (events ++ b.added) h t.same_ride
      (λ i. rw (sum_of-append (event_of i) (λ _. 1) events b.added) (
        ground
          (arith, h.accounted.counted ride.id, h.held, eq_iff ride.id i, t.counted, t.owned i)))
      (λ i.
        rw (sum_of-append (event_of i) size events b.added)
          (ground (arith, h.accounted.sized ride.id, h.held, eq_iff ride.id i, t.sized, t.owned i)))

-- the row that is inserted for a ride that nobody has claimed
pub claims_new :
    (env : Env) (id token : String) (now : ℕ) (db mid : Db) (claimed : Ride)
    → get_or_claim_ride env id token now db ≡ (ok claimed, mid)
    → find_ride id db.rides ≡ none
    → (claimed.id ≡ id)
      × (claimed.stored_event_count ≡ 0)
      × (claimed.stored_event_bytes ≡ 0)
      × (mid.rides ≡ db.rides ++ claimed ∷ [])
unfolding get_or_claim_ride
claims_new env id token now db mid claimed e missing = ground arith

pub claims_events :
    (env : Env) (id token : String) (now : ℕ) (db mid : Db) (claimed : Ride)
    → get_or_claim_ride env id token now db ≡ (ok claimed, mid)
    → (mid.events ≡ db.events) × (mid.next_row ≡ db.next_row)
unfolding get_or_claim_ride
claims_events env id token now db mid claimed e = ground arith

pub claims_found :
    (env : Env) (id token : String) (now : ℕ) (db mid : Db) (claimed r : Ride)
    → get_or_claim_ride env id token now db ≡ (ok claimed, mid)
    → find_ride id db.rides ≡ some r
    → (claimed ≡ r) × (mid.rides ≡ db.rides)
unfolding get_or_claim_ride
claims_found env id token now db mid claimed r e found = ground arith

-- A claimed ride is held by the session, under the identity that was asked for.
pub claim-Holds :
    (env : Env) (id token : String) (now : ℕ) (db mid : Db) (claimed : Ride)
    → get_or_claim_ride env id token now db ≡ (ok claimed, mid)
    → IsAccounted db.rides db.events
    → Holds claimed mid.rides mid.events × (claimed.id ≡ id)
claim-Holds env id token now db mid claimed e h =
    let (events, _) = claims_events env id token now db mid claimed e in
    elim (Option-cases (find_ride id db.rides)) [
      | inl missing ↦
          let (same, count, bytes, rides) = claims_new env id token now db mid claimed e missing in
          let absent : find_ride claimed.id db.rides ≡ none = rw same missing in
          (
            record {
              accounted = record {
                counted = λ i.
                    rw (rides, events, find_ride-append claimed db.rides i absent)
                      (ground (
                        arith,
                        count,
                        same,
                        eq_iff claimed.id i,
                        h.counted i,
                        h.counted id,
                        missing,
                      ));
                sized = λ i.
                    rw (rides, events, find_ride-append claimed db.rides i absent)
                      (ground
                        (arith, bytes, same, eq_iff claimed.id i, h.sized i, h.sized id, missing));
              };
              held =
                  rw (
                    rides,
                    find_ride-append claimed db.rides claimed.id absent,
                    eq_refl claimed.id,
                  );
            },
            same,
          )
      | inr (r, found) ↦
          let (same, rides) = claims_found env id token now db mid claimed r e found in
          let named = ap (λ (x : Ride). x.id) same ∙ find_ride-id db.rides id r found in
          (
            record {
              accounted = record {
                counted = λ i. rw (rides, events) (h.counted i);
                sized = λ i. rw (rides, events) (h.sized i);
              };
              held =
                  rw rides
                    (ap (λ (x : String). find_ride x db.rides) named ∙ found ∙ ap some (sym same));
            },
            named,
          )
    ]
