-- ===== src/Sync/Usage.antt =====
-- What a ride's counters say about its stored events (service.py, `_store_events` and
-- `_purge_expired_for_ride`).
use balloon_crumbs.Sync.Batch.{Adds, count_event-counters, store_events_induction}
use balloon_crumbs.Prelude.{
  ◌≡◌, ◌∙◌, ℕ, ◌+◌, ◌≤◌, String, false, List, [], ◌∷◌, arith, str_eq, eq_iff, length, sum_of,
  sum_of-append, count_of,
}
use balloon_crumbs.Result.{ok}
use balloon_crumbs.Models.{Ride, StoredEvent}
use balloon_crumbs.Env.{Env}
use balloon_crumbs.Sync.Event.{ValidatedEvent}
use balloon_crumbs.Sync.Store.{Batch, new_row, event_of, store_events}

abbrev pub size : StoredEvent → ℕ
size e = length e.body_ciphertext

abbrev pub count_in : String → List StoredEvent → ℕ
count_in id events = count_of (event_of id) events

abbrev pub bytes_in : String → List StoredEvent → ℕ
bytes_in id events = sum_of (event_of id) size events

-- What a batch has added is counted in its ride, and belongs to that ride alone.
pub record IsTallied (id : String) (count bytes : ℕ) (b : Batch) : Type 0 where
  pub same_ride : b.ride.id ≡ id
  pub counted : b.ride.stored_event_count ≡ count + count_in id b.added
  pub sized : b.ride.stored_event_bytes ≡ bytes + bytes_in id b.added
  pub owned : (i : String) → str_eq id i ≡ false → count_in i b.added + bytes_in i b.added ≡ 0

module _ (env : Env) (now : ℕ) (event : ValidatedEvent) (c : List ℕ) (b : Batch) where
  pub Adds-IsTallied :
      (id : String) (n s : ℕ) (b' : Batch)
      → Adds env now event c b b'
      → IsTallied id n s b
      → IsTallied id n s b'
  unfolding new_row
  Adds-IsTallied id n s b' (ride, added, _, _, _) t =
      let (same, count, bytes) = count_event-counters env now event c b.ride in
      let row = new_row env now event c b in
      record {
        same_ride = rw ride (same ∙ t.same_ride);
        counted =
            rw (ride, added)
              (ground (
                arith,
                count,
                t.counted,
                t.same_ride,
                eq_iff b.ride.id id,
                sum_of-append (event_of id) (λ _. 1) b.added (row ∷ []),
              ));
        sized =
            rw (ride, added)
              (ground (
                arith,
                bytes,
                t.sized,
                t.same_ride,
                eq_iff b.ride.id id,
                sum_of-append (event_of id) size b.added (row ∷ []),
              ));
        owned = λ i h. rw added (
            ground (
              arith,
              t.owned i h,
              t.same_ride,
              sum_of-append (event_of i) size b.added (row ∷ []),
              sum_of-append (event_of i) (λ _. 1) b.added (row ∷ []),
            ));
      }

module _ (env : Env) (nonces : ℕ → List ℕ) (now : ℕ) (existing : List String) where
  pub store_events-IsTallied :
      (id : String) (n s : ℕ) (events : List ValidatedEvent) (b b' : Batch)
      → store_events env nonces now existing events b ≡ ok b'
      → IsTallied id n s b
      → IsTallied id n s b'
  store_events-IsTallied id n s =
      store_events_induction env nonces now existing (IsTallied id n s)
        (λ event b b' st. Adds-IsTallied env now event st.sealed b id n s b' st.adds)

  -- the ride is within both quotas
  abbrev pub IsWithinQuota : Ride → Type 0
  IsWithinQuota r =
      (r.stored_event_count ≤ env.settings.maximum_events_per_ride)
      × (r.stored_event_bytes ≤ env.settings.maximum_stored_bytes_per_ride)

  -- A batch that is stored keeps its ride within the quotas on events and on bytes, if it was within
  -- them before.
  pub store_events-IsWithinQuota :
      (events : List ValidatedEvent) (b b' : Batch)
      → store_events env nonces now existing events b ≡ ok b'
      → IsWithinQuota b.ride
      → IsWithinQuota b'.ride
  store_events-IsWithinQuota =
      store_events_induction env nonces now existing (λ b. IsWithinQuota b.ride)
        (λ event b b' st h.
          let (ride, _, _, count, bytes) = st.adds in
          rw ride
            (ground (arith, count, bytes, count_event-counters env now event st.sealed b.ride)))
