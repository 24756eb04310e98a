-- ===== src/Sync/Pages.antt =====
-- The pages of a download and their cursors
-- (apps/server/src/balloon_crumbs_server/service.py, `_build_response`).
use balloon_crumbs.Crypto.Cursor.{CodecLaws, decode-encode}
use mathlib.Core.Path.{subst₂}
use balloon_crumbs.Prelude.{
  ◌≡◌, refl, sym, ap, ◌∙◌, inl, inr, ℕ, zero, suc, ◌+◌, ◌≤◌, ◌<◌, String, some, List, [], ◌∷◌, ◌++◌,
  arith, ltb, Bool-cases, length, take, drop, keep, all, append-nil, append_assoc,
}
use balloon_crumbs.Result.{ok, >>=-eq-ok, ok-injective}
use balloon_crumbs.Json.{Fields}
use balloon_crumbs.Models.{StoredEvent}
use balloon_crumbs.Env.{Env}
use balloon_crumbs.Crypto.{encode_cursor, decode_cursor}
use balloon_crumbs.Sync.Numbered.{Ascends, Ascends-keep, IsNumbered, order_by-ascending}
use balloon_crumbs.Sync.Response.{
  SyncResponse, pending, is_pending, read_event, candidate_size, fill, build_response,
}

-- the bodies of some rows, in order
abbrev pub Bodies : Env → String → List String → List StoredEvent → List Fields → Type 0
Bodies env ride_id ids [] [] = Unit
Bodies env ride_id ids (row ∷ rows) (v ∷ values) =
    (read_event env ride_id ids row ≡ ok v) × Bodies env ride_id ids rows values
Bodies env ride_id ids _ _ = ⊥

-- the sequence of the last of some rows
abbrev pub last_sequence : ℕ → List StoredEvent → ℕ
last_sequence d [] = d
last_sequence d (row ∷ rows) = last_sequence row.sequence rows

-- What a filled page is: the bodies of the first rows, as many as fit, and the sequence of the last.
pub record IsPage (env : Env) (ride_id : String) (ids : List String) (rows : List StoredEvent)
    (start : ℕ) (values : List Fields) (last : ℕ) : Type 0 where
  pub size : ℕ
  pub fits : size ≤ length rows
  pub bodies : Bodies env ride_id ids (take size rows) values
  pub ends : last ≡ last_sequence start (take size rows)

module _ (env : Env) (ride_id : String) (ids : List String) where
  fill-IsPage :
      (rows : List StoredEvent) (before : List Fields) (start : ℕ) (page : List Fields × ℕ)
      → fill env ride_id ids rows before start ≡ ok page
      → (values : List Fields) × (page.0 ≡ before ++ values)
        × IsPage env ride_id ids rows start values page.1
  unfolding fill
  fill-IsPage [] before start page e = (
    [],
    ap (λ (p : List Fields × ℕ). p.0) (sym (ok-injective e)) ∙ sym (append-nil before),
    record {
      size = 0;
      fits = omega arith;
      bodies = tt;
      ends = ap (λ (p : List Fields × ℕ). p.1) (sym (ok-injective e));
    },
  )
  fill-IsPage (row ∷ rows) before start page e =
      let (v, read, e') = >>=-eq-ok (read_event env ride_id ids row) _ e in
      let (size, sized, e'') =
        >>=-eq-ok (candidate_size env ride_id ids row (before ++ v ∷ [])) _ e' in
      elim (Bool-cases (ltb env.settings.maximum_response_bytes size)) [
        | inl full ↦ (
          [],
          ap (λ (p : List Fields × ℕ). p.0) (sym (ok-injective (rw full at e'')))
              ∙ sym (append-nil before),
          record {
            size = 0;
            fits = omega arith;
            bodies = tt;
            ends = ap (λ (p : List Fields × ℕ). p.1) (sym (ok-injective (rw full at e'')));
          },
        )
        | inr room ↦
            let (values, all, page') =
              fill-IsPage rows (before ++ v ∷ []) row.sequence page (rw room at e'') in
            (
              v ∷ values,
              all ∙ append_assoc before (v ∷ []) values,
              record {
                size = suc page'.size;
                fits = omega (arith, page'.fits);
                bodies = (read, page'.bodies);
                ends = page'.ends;
              },
            )
      ]

last_sequence-le :
    (k s hi : ℕ) (rows : List StoredEvent)
    → Ascends (suc s) hi rows
    → s ≤ last_sequence s (take k rows)
last_sequence-le zero s hi rows h = omega arith
last_sequence-le (suc k) s hi [] h = omega arith
last_sequence-le (suc k) s hi (e ∷ rows) h =
    omega (arith, h.0, last_sequence-le k e.sequence hi rows h.1)

-- the rows after the last of the first `k` are the rest
keep-after :
    (k lo hi start : ℕ) (rows : List StoredEvent)
    → Ascends lo hi rows
    → start < lo
    → keep (λ e. ltb (last_sequence start (take k rows)) e.sequence) rows ≡ drop k rows
keep-after zero lo hi start [] h le = refl
keep-after zero lo hi start (e ∷ rows) h le =
    let rest = keep-after zero (suc e.sequence) hi start rows h.1 (omega (arith, h.0)) in
    ground (arith, h.0, rest)
keep-after (suc k) lo hi start [] h le = refl
keep-after (suc k) lo hi start (e ∷ rows) h le =
    let rest = keep-after k (suc e.sequence) hi e.sequence rows h.1 (omega arith) in
    ground (arith, rest, last_sequence-le k e.sequence hi rows h.1)

-- later pending rows are pending rows after the later cursor
keep-later :
    (r : String) (start later now : ℕ) (rows : List StoredEvent)
    → start ≤ later
    → keep (is_pending r later now) rows
      ≡ keep (λ e. ltb later e.sequence) (keep (is_pending r start now) rows)
keep-later r start later now [] le = refl
keep-later r start later now (e ∷ rows) le = ground (arith, keep-later r start later now rows le)

Ascends-raise :
    (lo hi hi' : ℕ) (rows : List StoredEvent) → hi ≤ hi' → Ascends lo hi rows → Ascends lo hi' rows
Ascends-raise lo hi hi' [] le h = omega arith
Ascends-raise lo hi hi' (e ∷ rows) le h = (h.0, Ascends-raise (suc e.sequence) hi hi' rows le h.1)

pending-Ascends :
    (r : String) (start now lo hi : ℕ) (rows : List StoredEvent)
    → Ascends lo hi rows
    → Ascends (suc start) (hi + suc start) (keep (is_pending r start now) rows)
pending-Ascends r start now lo hi [] h = omega arith
pending-Ascends r start now lo hi (e ∷ rows) h = elim (Bool-cases (is_pending r start now e)) [
  | inl kept ↦ rw kept (
    ground (arith, kept),
    Ascends-raise (suc e.sequence) hi (hi + suc start) (keep (is_pending r start now) rows)
        (omega arith) (Ascends-keep (is_pending r start now) (suc e.sequence) hi rows h.1),
  )
  | inr left ↦ rw left (pending-Ascends r start now (suc e.sequence) hi rows h.1)
]

take-take : (m n : ℕ) (rows : List StoredEvent) → m ≤ n → take m (take n rows) ≡ take m rows
take-take zero n rows le = refl
take-take (suc m) zero rows le = elim le [ ]
take-take (suc m) (suc n) [] le = refl
take-take (suc m) (suc n) (e ∷ rows) le = rw (take-take m n rows (omega arith))

length-take-le : (n : ℕ) (rows : List StoredEvent) → length (take n rows) ≤ n
length-take-le zero rows = omega arith
length-take-le (suc n) [] = omega arith
length-take-le (suc n) (e ∷ rows) = omega (arith, length-take-le n rows)

-- What a response is: the bodies of the first pending events, and a cursor at which exactly the
-- other pending events are pending.
pub record IsResponse (env : Env) (ride_id : String) (ids : List String) (start now : ℕ)
    (events : List StoredEvent) (response : SyncResponse) : Type 0 where
  pub size : ℕ
  pub last : ℕ
  pub bounded : size ≤ env.settings.maximum_download_events
  pub bodies : Bodies env ride_id ids (take size (pending ride_id start now events)) response.events
  pub accepted : response.accepted_event_ids ≡ ids
  pub cursor : response.cursor ≡ encode_cursor env ride_id last
  pub resumes : pending ride_id last now events ≡ drop size (pending ride_id start now events)

module _ (env : Env) (ride_id : String) (ids : List String) (start now next : ℕ)
    (events : List StoredEvent) (numbered : IsNumbered next events) where
  pending_resumes :
      (k : ℕ)
      → pending ride_id (last_sequence start (take k (pending ride_id start now events))) now events
        ≡ drop k (pending ride_id start now events)
  unfolding pending
  pending_resumes k =
      let rows = keep (is_pending ride_id start now) events in
      let ascends = pending-Ascends ride_id start now 0 next events numbered in
      rw (order_by-ascending 0 next events numbered) (
        keep-later ride_id start (last_sequence start (take k rows)) now events
          (last_sequence-le k start (next + suc start) rows ascends)
        ∙ keep-after k (suc start) (next + suc start) start rows ascends (omega arith))

  -- A response holds the bodies of the next pending events, at most as many as the settings allow,
  -- and its cursor resumes the download at exactly the pending events that it leaves out: no event
  -- is skipped, and none is sent again.
  pub build_response-IsResponse :
      (response : SyncResponse)
      → build_response env ride_id ids start now events ≡ ok response
      → IsResponse env ride_id ids start now events response
  unfolding build_response
  build_response-IsResponse response e =
      let m = env.settings.maximum_download_events in
      let whole = pending ride_id start now events in
      let rows = take m (take (m + 1) whole) in
      let (page, filled, made) =
        >>=-eq-ok (fill env ride_id ids rows [] start)
          (λ p. ok (record {
            cursor = encode_cursor env ride_id p.1;
            accepted_event_ids = ids;
            events = p.0;
          }))
          e in
      let (values, all, p) = fill-IsPage env ride_id ids rows [] start page filled in
      let small : p.size ≤ m = omega (arith, p.fits, length-take-le m (take (m + 1) whole)) in
      let front : take p.size rows ≡ take p.size whole =
        take-take p.size m (take (m + 1) whole) small
        ∙ take-take p.size (m + 1) whole (omega arith) in
      let made' = sym (ok-injective made) in
      let ends : page.1 ≡ last_sequence start (take p.size whole) =
        p.ends ∙ ap (last_sequence start) front in
      record {
        size = p.size;
        last = page.1;
        bounded = small;
        bodies =
            subst₂ (λ (r : List StoredEvent) (v : List Fields). Bodies env ride_id ids r v) front
              (sym (ap (λ (r : SyncResponse). r.events) made' ∙ all)) p.bodies;
        accepted = ap (λ (r : SyncResponse). r.accepted_event_ids) made';
        cursor = ap (λ (r : SyncResponse). r.cursor) made';
        resumes = rw ends (pending_resumes p.size);
      }

-- The cursor of a response, sent back in the next request, is read as a sequence after which
-- exactly the events that the response left out are pending, if the stored sequences increase and
-- the laws of the cursor's primitives hold.
pub build_response_resumes :
    (env : Env) (laws : CodecLaws env) (ride_id : String) (ids : List String) (start now next : ℕ)
    (events : List StoredEvent) (response : SyncResponse)
    → IsNumbered next events
    → build_response env ride_id ids start now events ≡ ok response
    → (size last : ℕ) × (size ≤ env.settings.maximum_download_events)
      × Bodies env ride_id ids (take size (pending ride_id start now events)) response.events
      × (decode_cursor env ride_id (some response.cursor) ≡ ok last)
      × (pending ride_id last now events ≡ drop size (pending ride_id start now events))
build_response_resumes env laws ride_id ids start now next events response numbered e =
    let r = build_response-IsResponse env ride_id ids start now next events numbered response e in
    (
      r.size,
      r.last,
      r.bounded,
      r.bodies,
      rw r.cursor (decode-encode env laws ride_id r.last),
      r.resumes,
    )
