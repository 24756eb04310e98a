-- ===== src/Sync/Batch.antt =====
-- What one round of the loop of `_store_events` does to a batch, and induction over its rounds
-- (apps/server/src/balloon_crumbs_server/service.py).
use balloon_crumbs.Prelude.{
  ◌≡◌, ◌⊎◌, inl, inr, ℕ, ◌+◌, ◌≤◌, ◌<◌, String, false, List, [], ◌∷◌, ◌++◌, arith, str_eq, leb,
  Bool-cases, length, contains, subst,
}
use balloon_crumbs.Result.{ok, >>=-eq-ok, ok-injective}
use balloon_crumbs.Json.{object}
use balloon_crumbs.Models.{Ride}
use balloon_crumbs.Env.{Env}
use balloon_crumbs.Crypto.{encrypt_json}
use balloon_crumbs.Sync.Event.{ValidatedEvent}
use balloon_crumbs.Sync.Store.{
  Batch, count_event, new_row, event_expiry, event_aad, add_event, store_event, store_events,
}

pub count_event-counters :
    (env : Env) (now : ℕ) (event : ValidatedEvent) (c : List ℕ) (ride : Ride)
    → ((count_event env now event c ride).id ≡ ride.id)
      × ((count_event env now event c ride).stored_event_count ≡ ride.stored_event_count + 1)
      × ((count_event env now event c ride).stored_event_bytes ≡ ride.stored_event_bytes + length c)
unfolding count_event
count_event-counters env now event c ride = ground arith

module _ (env : Env) (now : ℕ) (event : ValidatedEvent) (c : List ℕ) (b : Batch) where
  -- what a batch is after an event has been added
  abbrev pub Adds : Batch → Type 0
  Adds b' =
      (b'.ride ≡ count_event env now event c b.ride)
      × (b'.added ≡ b.added ++ new_row env now event c b ∷ [])
      × (b'.next_row ≡ b.next_row + 1)
      × (b.ride.stored_event_count + 1 ≤ env.settings.maximum_events_per_ride)
      × (b.ride.stored_event_bytes + length c ≤ env.settings.maximum_stored_bytes_per_ride)

  pub add_event-Adds : (b' : Batch) → add_event env now event c b ≡ ok b' → Adds b'
  unfolding add_event
  add_event-Adds b' e = ground arith

module _ (env : Env) (nonces : ℕ → List ℕ) (now : ℕ) (existing : List String) where
  -- A round that stores its event: the event was not stored before, has not expired, and its body
  -- was sealed for this ride and event.
  pub record Stores (event : ValidatedEvent) (b b' : Batch) : Type 0 where
    pub sealed : List ℕ
    pub fresh : contains str_eq event.event_id existing ≡ false
    pub unexpired : now < event_expiry now b.ride event
    pub encrypted :
        encrypt_json env
          (nonces b.next_row)
          (object event.body)
          (event_aad b.ride.id event.event_id)
        ≡ ok sealed
    pub adds : Adds env now event sealed b b'

  -- A round leaves the batch alone, since the event is stored or has expired, or stores the event.
  pub store_event-cases :
      (event : ValidatedEvent) (b b' : Batch)
      → store_event env nonces now existing event b ≡ ok b'
      → (b' ≡ b) ⊎ Stores event b b'
  unfolding store_event
  store_event-cases event b b' e = elim (Bool-cases (contains str_eq event.event_id existing)) [
    | inl old ↦ inl (ground (arith, old))
    | inr fresh ↦ elim (Bool-cases (leb (event_expiry now b.ride event) now)) [
      | inl expired ↦ inl (ground (arith, fresh, expired))
      | inr live ↦
          let (c, encrypted, added) =
            >>=-eq-ok
              (encrypt_json env (nonces b.next_row) (object event.body)
                (event_aad b.ride.id event.event_id))
              (λ c. add_event env now event c b) (rw (fresh, live, store_event) at e) in
          inr (record {
            sealed = c;
            fresh = fresh;
            unexpired = ground (arith, live);
            encrypted = encrypted;
            adds = add_event-Adds env now event c b b' added;
          })
    ]
  ]

  -- An invariant that each storing round keeps, whatever the event, holds after the loop.
  pub store_events_induction :
      (P : Batch → Type 0)
      → ((event : ValidatedEvent) (b b' : Batch) → Stores event b b' → P b → P b')
      → (events : List ValidatedEvent) (b b' : Batch)
      → store_events env nonces now existing events b ≡ ok b'
      → P b
      → P b'
  unfolding store_events
  store_events_induction P step [] b b' e h = subst P (ok-injective e) h
  store_events_induction P step (event ∷ events) b b' e h =
      let (m, first, rest) =
        >>=-eq-ok (store_event env nonces now existing event b)
          (λ m. store_events env nonces now existing events m) e in
      store_events_induction P step events m b' rest (elim (store_event-cases event b m first) [
        | inl same ↦ rw same h
        | inr stored ↦ step event b m stored h
      ])
