-- ===== src/Sync/Unique.antt =====
-- The identities of stored events: the constraint `uq_ride_event_identity` of models.py and
-- `_validate_event_conflicts` of apps/server/src/balloon_crumbs_server/service.py.
use balloon_crumbs.Prelude.{
  subst, ◌≡◌, refl, sym, ◌∙◌, inl, inr, ℕ, ◌≤◌, String, Bool, true, false, not, ◌&&◌, none, List,
  [], ◌∷◌, ◌++◌, arith, str_eq, eq_iff, if◌then◌else◌, Bool-cases, Option-cases, keep, find,
  sum_of-append, count_of, contains, eq_refl, sum_of-keep-le, append-nil,
}
use balloon_crumbs.Result.{ok, >>=-eq-ok, ok-injective, Result-cases}
use balloon_crumbs.Models.{StoredEvent, Db}
use balloon_crumbs.Env.{Env}
use balloon_crumbs.Sync.Event.{ValidatedEvent}
use balloon_crumbs.Sync.Batch.{Stores, store_event-cases, count_event-counters}
use balloon_crumbs.Sync.Request.{SyncRequest, event_ids, repeats}
use balloon_crumbs.Sync.Store.{
  Batch, store_event, store_events, validate_event_conflicts, event_at, new_row, purge_rows,
  purge_ride, expired_event,
}
use balloon_crumbs.Sync.Handler.{Entropy, synchronize}
use balloon_crumbs.Sync.Accounts.{claims_events}
use balloon_crumbs.Sync.Commits.{Commits, purged}
use balloon_crumbs.Sync.Outcome.{synchronize_keeps}

abbrev pub copies : String → String → List StoredEvent → ℕ
copies ride_id event_id events = count_of (event_at ride_id event_id) events

-- No ride holds an event twice.
abbrev pub IsUnique : List StoredEvent → Type 0
IsUnique events = (ride_id event_id : String) → copies ride_id event_id events ≤ 1

keep-IsUnique :
    (p : StoredEvent → Bool) (events : List StoredEvent)
    → IsUnique events
    → IsUnique (keep p events)
keep-IsUnique p events h r i = omega (arith, h r i, sum_of-keep-le (event_at r i) p (λ _. 1) events)

copies-find :
    (r i : String) (events : List StoredEvent)
    → find (event_at r i) events ≡ none
    → copies r i events ≡ 0
copies-find r i [] h = refl
copies-find r i (e ∷ events) h = ground (arith, copies-find r i events)

-- The identities that the conflict check does not return are not stored.
conflicts_cover :
    (r i : String) (batch : List ValidatedEvent) (stored : List StoredEvent)
    (existing : List String)
    → validate_event_conflicts r batch stored ≡ ok existing
    → contains str_eq i (event_ids batch) ≡ true
    → contains str_eq i existing ≡ false
    → copies r i stored ≡ 0
unfolding validate_event_conflicts
conflicts_cover r i [] stored existing e m f = cc
conflicts_cover r i (ev ∷ batch) stored existing e m f =
    elim (Option-cases (find (event_at r ev.event_id) stored)) [
      | inl absent ↦ elim (Bool-cases (str_eq i ev.event_id)) [
        | inl here ↦ rw ((eq_iff i ev.event_id).0 here) (copies-find r ev.event_id stored absent)
        | inr other ↦
            conflicts_cover r i batch stored existing (ground (arith, e, absent))
              (ground (arith, other)) f
      ]
      | inr (previous, found) ↦ elim (Result-cases (validate_event_conflicts r batch stored)) [
        | inr (fault, failed) ↦ absurd (ground (arith, e, found, failed))
        | inl (rest, covered) ↦
            let is_rest : existing ≡ ev.event_id ∷ rest = ground (arith, e, found, covered) in
            let f' : contains str_eq i (ev.event_id ∷ rest) ≡ false =
              subst (λ (x : List String). contains str_eq i x ≡ false) is_rest f in
            conflicts_cover r i batch stored rest covered (ground (arith, m, f'))
              (ground (arith, f'))
      ]
    ]

row_copies :
    (env : Env) (now : ℕ) (event : ValidatedEvent) (c : List ℕ) (b : Batch) (r i : String)
    → copies r i (new_row env now event c b ∷ [])
      ≡ (if str_eq b.ride.id r && str_eq event.event_id i then 1 else 0)
unfolding new_row
row_copies env now event c b r i = ground arith

module _ (env : Env) (nonces : ℕ → List ℕ) (now : ℕ) (existing : List String) (r : String)
    (base : List StoredEvent) where
  -- none of the events still to come is stored by now
  abbrev IsAhead : List ValidatedEvent → List StoredEvent → Type 0
  IsAhead batch added =
      (i : String) → contains str_eq i (event_ids batch) ≡ true → copies r i added ≡ 0

  abbrev IsCovered : List ValidatedEvent → Type 0
  IsCovered batch =
      (i : String)
      → contains str_eq i (event_ids batch) ≡ true
      → contains str_eq i existing ≡ false
      → copies r i base ≡ 0

  -- A round keeps the identities unique, and stores none of the events still to come.
  Stores-IsUnique :
      (event : ValidatedEvent) (batch : List ValidatedEvent) (b b' : Batch)
      → Stores env nonces now existing event b b'
      → b.ride.id ≡ r
      → repeats (event_ids (event ∷ batch)) ≡ false
      → IsCovered (event ∷ batch)
      → IsAhead (event ∷ batch) b.added
      → IsUnique (base ++ b.added)
      → IsUnique (base ++ b'.added) × IsAhead batch b'.added
  Stores-IsUnique event batch b b' st own distinct covered ahead unique =
      let (_, added, _, _, _) = st.adds in
      let row = new_row env now event st.sealed b in
      (
        λ s i.
            rw
              (
                added,
                sum_of-append (event_at s i) (λ _. 1) base (b.added ++ row ∷ []),
                sum_of-append (event_at s i) (λ _. 1) b.added (row ∷ []),
              )
              (ground (
                arith,
                row_copies env now event st.sealed b s i,
                unique s i,
                sum_of-append (event_at s i) (λ _. 1) base b.added,
                eq_iff b.ride.id s,
                eq_iff event.event_id i,
                own,
                covered i,
                ahead i,
                st.fresh,
                eq_refl i,
              )),
        λ i m.
            rw (added, sum_of-append (event_at r i) (λ _. 1) b.added (row ∷ []))
              (ground (
                arith,
                row_copies env now event st.sealed b r i,
                ahead i,
                eq_iff event.event_id i,
                distinct,
                m,
              )),
      )

  pub store_events-IsUnique :
      (batch : List ValidatedEvent) (b b' : Batch)
      → store_events env nonces now existing batch b ≡ ok b'
      → b.ride.id ≡ r
      → repeats (event_ids batch) ≡ false
      → IsCovered batch
      → IsAhead batch b.added
      → IsUnique (base ++ b.added)
      → IsUnique (base ++ b'.added)
  unfolding store_events
  store_events-IsUnique [] b b' e own distinct covered ahead unique =
      subst (λ (x : Batch). IsUnique (base ++ x.added)) (ok-injective e) unique
  store_events-IsUnique (event ∷ batch) b b' e own distinct covered ahead unique =
      let (m, first, rest) =
        >>=-eq-ok (store_event env nonces now existing event b)
          (λ m. store_events env nonces now existing batch m) e in
      let distinct' : repeats (event_ids batch) ≡ false = ground (arith, distinct) in
      let covered' : IsCovered batch = λ i k. covered i (ground (arith, k)) in
      elim (store_event-cases env nonces now existing event b m first) [
        | inl same ↦
            store_events-IsUnique batch m b' rest (rw same own) distinct' covered'
              (rw same (λ i k. ahead i (ground (arith, k)))) (rw same unique)
        | inr st ↦
            let (unique', ahead') =
              Stores-IsUnique event batch b m st own distinct covered ahead unique in
            let (ride, _, _, _, _) = st.adds in
            let named = count_event-counters env now event st.sealed b.ride in
            store_events-IsUnique batch m b' rest (rw ride (named.0 ∙ own)) distinct' covered'
              ahead' unique'
      ]

module _ (env : Env) (entropy : Entropy) (now : ℕ) where
  Commits-IsUnique :
      (q : SyncRequest) (batch : List ValidatedEvent) (db db' : Db)
      → Commits env entropy now q batch db db'
      → repeats (event_ids batch) ≡ false
      → IsUnique db.events
      → IsUnique db'.events
  unfolding purge_rows
  Commits-IsUnique q batch db db' c distinct h =
      let p = purged env entropy now q c.claimed c.mid in
      let ride = purge_ride now c.claimed c.mid.events in
      let (events, _) =
        claims_events env q.ride_id q.bearer_token now db c.mid c.claimed c.claims in
      let mid : IsUnique c.mid.events = rw events h in
      let kept : IsUnique p.events =
        keep-IsUnique (λ e. not (expired_event q.ride_id now e)) c.mid.events mid in
      elim c.outcome [
        | inl (r, _, w) ↦ rw w.1 kept
        | inr u ↦
            let s = u.saves in
            rw (u.events, s.events)
              (store_events-IsUnique env entropy.event_nonce now s.existing ride.id p.events batch
                (record { ride = ride; added = []; membership = []; next_row = p.next_row }) s.b
                s.stored refl distinct
                (λ i k f. conflicts_cover ride.id i batch p.events s.existing s.unconflicted k f)
                (λ i k. refl)
                (subst (λ (x : List StoredEvent). IsUnique x) (sym (append-nil p.events)) kept))
      ]

  -- If no ride holds an event twice, none does after a synchronisation, whether the upload is new,
  -- repeated under another key or refused.
  pub synchronize-IsUnique :
      (q : SyncRequest) (db : Db)
      → IsUnique db.events
      → IsUnique (synchronize env entropy q now db).1.events
  synchronize-IsUnique =
      synchronize_keeps env entropy now (λ db. IsUnique db.events) Commits-IsUnique
