-- ===== src/Presence/Slots.antt =====
-- The number of live positions of a ride and of a rider
-- (apps/server/src/balloon_crumbs_server/service.py, `synchronize_pre_start_presence`).
use balloon_crumbs.Json.{Fields}
use balloon_crumbs.Prelude.{
  ◌≡◌, refl, inl, inr, ℕ, ◌≤◌, String, Bool, true, false, not, ◌&&◌, List, [], ◌∷◌, arith, eq_iff,
  leb, Bool-cases, Option-cases, is_some, keep, find, sum_of-append, count_of, sum_of-keep-le,
}
use balloon_crumbs.Models.{PreStartPosition, Db}
use balloon_crumbs.Effect.Keeps.{Keeps, guarded-Keeps, then-Keeps}
use balloon_crumbs.Env.{Env}
use balloon_crumbs.Presence.Roster.{Phase, open_phase, started, ended}
use balloon_crumbs.Presence.Request.{PresenceSyncRequest}
use balloon_crumbs.Presence.Keeps.{synchronize_pre_start_presence-Keeps}
use balloon_crumbs.Presence.Handler.{
  position_of, position_at, synchronize_pre_start_presence, exchange, write_position,
  read_positions, publish, position_row, save_position, update_position, clear_position,
  clear_positions, expire_positions,
}

abbrev pub riders : String → List PreStartPosition → ℕ
riders ride_id ps = count_of (position_of ride_id) ps

abbrev pub slots : String → String → List PreStartPosition → ℕ
slots ride_id rider_id ps = count_of (position_at ride_id rider_id) ps

-- No ride has more live positions than the capacity, and no rider has two in a ride.
abbrev pub HasCapacity : Env → Db → Type 0
HasCapacity env db =
    ((r : String) → riders r db.positions ≤ env.settings.maximum_pre_start_presence_riders)
    × ((r i : String) → slots r i db.positions ≤ 1)

-- Changing a row in place changes no count.
update-counts :
    (row : PreStartPosition) (ps : List PreStartPosition) (r i : String)
    → (riders r (update_position row ps) ≡ riders r ps)
      × (slots r i (update_position row ps) ≡ slots r i ps)
unfolding update_position
update-counts row [] r i = (refl, refl)
update-counts row (p ∷ ps) r i =
    let (a, b) = update-counts row ps r i in
    (
      ground (arith, a, eq_iff p.ride_id row.ride_id),
      ground (arith, b, eq_iff p.ride_id row.ride_id, eq_iff p.rider_id row.rider_id),
    )

slots-find :
    (r i : String) (ps : List PreStartPosition)
    → is_some (find (position_at r i) ps) ≡ false
    → slots r i ps ≡ 0
slots-find r i [] h = refl
slots-find r i (p ∷ ps) h = ground (arith, slots-find r i ps)

module _ (env : Env) where
  keep-HasCapacity :
      (p : PreStartPosition → Bool) (db : Db)
      → HasCapacity env db
      → HasCapacity env (record db { positions = keep p db.positions })
  keep-HasCapacity p db (h, k) = (
    λ r. omega (arith, h r, sum_of-keep-le (position_of r) p (λ _. 1) db.positions),
    λ r i. omega (arith, k r i, sum_of-keep-le (position_at r i) p (λ _. 1) db.positions),
  )

  -- A new row for a rider without one fits below the capacity.
  save-HasCapacity :
      (row : PreStartPosition) (db : Db) (exists : Bool)
      → is_some (find (position_at row.ride_id row.rider_id) db.positions) ≡ exists
      → (not exists
          && leb env.settings.maximum_pre_start_presence_riders (riders row.ride_id db.positions))
        ≡ false
      → HasCapacity env db
      → HasCapacity env (record db { positions = save_position exists row db.positions })
  unfolding save_position
  save-HasCapacity row db true e f (h, k) = (
    λ r. omega (arith, h r, (update-counts row db.positions r r).0),
    λ r i. omega (arith, k r i, (update-counts row db.positions r i).1),
  )
  save-HasCapacity row db false e f (h, k) = (
    λ r.
        rw (sum_of-append (position_of r) (λ _. 1) db.positions (row ∷ []))
          (ground (arith, h r, f, eq_iff row.ride_id r)),
    λ r i. rw (sum_of-append (position_at r i) (λ _. 1) db.positions (row ∷ [])) (
        ground (
          arith,
          k r i,
          eq_iff row.ride_id r,
          eq_iff row.rider_id i,
          slots-find row.ride_id row.rider_id db.positions e,
        )),
  )

  publish-HasCapacity :
      (nonce : List ℕ) (q : PresenceSyncRequest) (raw : Fields) (now : ℕ)
      → Keeps (HasCapacity env) (publish env nonce q raw now)
  unfolding publish position_row
  publish-HasCapacity nonce q raw now db h =
      let exists = is_some (find (position_at q.ride_id q.device_id) db.positions) in
      guarded-Keeps (HasCapacity env) _ _ _
        (λ c s. record s {
          positions = save_position exists (position_row env q c now) s.positions;
        })
        db h (λ below c. save-HasCapacity (position_row env q c now) db exists refl below h)

  write-HasCapacity :
      (nonce : List ℕ) (q : PresenceSyncRequest) (now : ℕ)
      → Keeps (HasCapacity env) (write_position env nonce q now)
  unfolding write_position clear_position
  write-HasCapacity nonce q now db h = elim (Bool-cases q.clear) [
    | inl c ↦ rw c (keep-HasCapacity (λ p. not (position_at q.ride_id q.device_id p)) db h)
    | inr c ↦ elim (Option-cases q.position) [
      | inl n ↦ rw (c, n) h
      | inr (p, is) ↦ rw (c, is) (publish-HasCapacity nonce q p.raw now db h)
    ]
  ]

  read-HasCapacity :
      (q : PresenceSyncRequest) (phase : Phase) (db : Db) → (read_positions env q phase db).1 ≡ db
  unfolding read_positions
  read-HasCapacity q open_phase db = refl
  read-HasCapacity q ended db = refl
  read-HasCapacity q started db = elim (Bool-cases q.live_presence) [
    | inl l ↦ rw l refl
    | inr l ↦ rw l refl
  ]

  exchange-HasCapacity :
      (nonce : List ℕ) (q : PresenceSyncRequest) (phase : Phase) (now : ℕ) (db : Db)
      → HasCapacity env db
      → HasCapacity env (exchange env nonce q phase now db).1
  unfolding exchange clear_positions
  exchange-HasCapacity nonce q ended now db h =
      keep-HasCapacity (λ p. not (position_of q.ride_id p)) db h
  exchange-HasCapacity nonce q open_phase now db h =
      then-Keeps (HasCapacity env) (write_position env nonce q now db).0 _ _
        (write-HasCapacity nonce q now db h) (λ _ s k. rw (read-HasCapacity q open_phase s) k)
  exchange-HasCapacity nonce q started now db h =
      then-Keeps (HasCapacity env) (write_position env nonce q now db).0 _ _
        (write-HasCapacity nonce q now db h) (λ _ s k. rw (read-HasCapacity q started s) k)

  expire-HasCapacity :
      (ride_id : String) (now : ℕ) (db : Db)
      → HasCapacity env db
      → HasCapacity env (expire_positions ride_id now db)
  unfolding expire_positions
  expire-HasCapacity ride_id now db h =
      keep-HasCapacity (λ p. not (position_of ride_id p && leb p.expires_at now)) db h

  -- If no ride has more live positions than the capacity, and no rider two in a ride, this is so
  -- after a request too, whatever the request and its outcome.
  pub synchronize_pre_start_presence-HasCapacity :
      (nonce : List ℕ) (q : PresenceSyncRequest) (now : ℕ) (db : Db)
      → HasCapacity env db
      → HasCapacity env (synchronize_pre_start_presence env nonce q now db).1
  synchronize_pre_start_presence-HasCapacity nonce q now =
      synchronize_pre_start_presence-Keeps env nonce q now (HasCapacity env)
        (expire-HasCapacity q.ride_id now) (λ phase. exchange-HasCapacity nonce q phase now)
