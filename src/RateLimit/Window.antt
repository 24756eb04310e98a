-- ===== src/RateLimit/Window.antt =====
-- The requests that the limiter admits, over time
-- (apps/server/src/balloon_crumbs_server/rate_limit.py).
use balloon_crumbs.Prelude.{
  subst, ◌≡◌, refl, sym, ◌⊎◌, inl, inr, ℕ, ◌≤◌, String, Bool, false, ◌&&◌, none, List, [], ◌∷◌,
  ◌++◌, arith, str_eq, eq_iff, leb, if◌then◌else◌, Bool-cases, Option-cases, length, keep,
  length-append, sum_of-append, count_of,
}
use balloon_crumbs.RateLimit.Bounds.{length-drop_old, make_room-absent, keep-absent}
use balloon_crumbs.RateLimit.{
  SlidingWindowRateLimiter, Requests, Verdict, admitted, retry_after, requests_of, put_requests,
  drop_old, make_room, admit, check, refuse, is_active, is_recent,
}
use balloon_crumbs.RateLimit.Times.{
  IsDict, Rises, Rises-le, append-Rises, drop_old-Rises, drop_old-recent, inactive-recent,
  keep-IsDict, put_requests-IsDict, put_requests-of, recent, recent-length, times_of,
}

module _ (limiter : SlidingWindowRateLimiter) where
  -- the requests of a log that were made under a key within the window at an instant
  abbrev pub within : ℕ → String → List (String × ℕ) → ℕ
  within s key log = count_of (λ call. str_eq call.0 key && is_recent limiter s call.1) log

  abbrev log_of : Verdict → String → ℕ → List (String × ℕ) → List (String × ℕ)
  log_of admitted key now log = (key, now) ∷ log
  log_of v key now log = log

  -- The limiter remembers every logged request that is still in the window.
  pub record Covers (t : ℕ) (log : List (String × ℕ)) (requests : Requests) : Type 0 where
    pub dict : IsDict requests
    pub rises : (k : String) → Rises t (times_of k requests)
    pub limited : (k : String) → length (times_of k requests) ≤ limiter.maximum_requests
    pub covered :
        (k : String) (s : ℕ) → t ≤ s → within s k log ≤ recent limiter s (times_of k requests)

  Covers-le :
      (t t' : ℕ) (log : List (String × ℕ)) (requests : Requests)
      → t ≤ t'
      → Covers t log requests
      → Covers t' log requests
  Covers-le t t' log requests l c = record {
    dict = c.dict;
    rises = λ k. Rises-le t t' (times_of k requests) l (c.rises k);
    limited = c.limited;
    covered = λ k s h. c.covered k s (omega (arith, l, h));
  }

  keep-times_of :
      (p : String × List ℕ → Bool) (k : String) (requests : Requests)
      → IsDict requests
      → (times_of k (keep p requests) ≡ times_of k requests)
        ⊎ ((times_of k (keep p requests) ≡ []) × (p (k, times_of k requests) ≡ false))
  keep-times_of p k [] h = inl refl
  keep-times_of p k ((x, times) ∷ requests) (a, h) = elim (Bool-cases (str_eq x k)) [
    | inl y ↦ elim (Bool-cases (p (x, times))) [
      | inl e ↦ inl (ground (arith, e, y))
      | inr n ↦
          let same = (eq_iff x k).0 y in
          let gone : requests_of k (keep p requests) ≡ none =
            keep-absent p k requests (subst (λ z. requests_of z requests ≡ none) same a) in
          let here : times_of k ((x, times) ∷ requests) ≡ times = ground (arith, y) in
          inr
            (ground (arith, n, gone), rw here (subst (λ (z : String). p (z, times) ≡ false) same n))
    ]
    | inr n ↦
        let kept : times_of k (keep p ((x, times) ∷ requests)) ≡ times_of k (keep p requests) =
          ground (arith, n) in
        let left : times_of k ((x, times) ∷ requests) ≡ times_of k requests = ground (arith, n) in
        rw (kept, left) (keep-times_of p k requests h)
  ]

  make_room-Covers :
      (now : ℕ) (log : List (String × ℕ)) (requests : Requests)
      → Covers now log requests
      → Covers now log (make_room limiter now requests)
  unfolding make_room
  make_room-Covers now log requests c =
      elim (Bool-cases (leb limiter.maximum_keys (length requests))) [
        | inr n ↦ rw n c
        | inl y ↦
            let p : String × List ℕ → Bool = λ entry. is_active limiter now entry.1 in
            let pruned = λ (k : String). keep-times_of p k requests c.dict in
            rw y (record {
              dict = keep-IsDict p requests c.dict;
              rises = λ k. elim (pruned k) [ inl e ↦ rw e (c.rises k) | inr (e, _) ↦ rw e tt ];
              limited = λ k. elim (pruned k) [
                | inl e ↦ rw e (c.limited k)
                | inr (e, _) ↦ rw e (omega arith)
              ];
              covered = λ k s h. elim (pruned k) [
                | inl e ↦ rw e (c.covered k s h)
                | inr (e, i) ↦ rw e (
                    omega (
                      arith,
                      c.covered k s h,
                      inactive-recent limiter now s now (times_of k requests) (c.rises k) i h,
                    ))
              ];
            })
      ]

  put-times_of :
      (key k : String) (times : List ℕ) (requests : Requests)
      → times_of k (put_requests key times requests)
        ≡ (if str_eq key k then times else times_of k requests)
  put-times_of key k times requests = ground (arith, put_requests-of key k times requests)

  -- New times under one key cover what is logged under it.
  put-Covers :
      (key : String) (now : ℕ) (new : List ℕ) (log log' : List (String × ℕ)) (requests : Requests)
      → Covers now log requests
      → Rises now new
      → length new ≤ limiter.maximum_requests
      → ((s : ℕ) → now ≤ s → within s key log' ≤ recent limiter s new)
      → ((k : String) (s : ℕ) → str_eq key k ≡ false → within s k log' ≡ within s k log)
      → Covers now log' (put_requests key new requests)
  put-Covers key now new log log' requests c rises limited own others = record {
    dict = put_requests-IsDict key new requests c.dict;
    rises = λ k.
        rw (put-times_of key k new requests)
          (elim (Bool-cases (str_eq key k)) [ inl y ↦ rw y rises | inr n ↦ rw n (c.rises k) ]);
    limited = λ k.
        rw (put-times_of key k new requests)
          (elim (Bool-cases (str_eq key k)) [ inl y ↦ rw y limited | inr n ↦ rw n (c.limited k) ]);
    covered = λ k s h. rw (put-times_of key k new requests) (elim (Bool-cases (str_eq key k)) [
      | inl y ↦ rw (y, sym ((eq_iff key k).0 y)) (own s h)
      | inr n ↦ rw (n, others k s n) (c.covered k s h)
    ]);
  }

  refuse-log :
      (key : String) (now : ℕ) (times : List ℕ) (log : List (String × ℕ))
      → log_of (refuse limiter now times) key now log ≡ log
  unfolding refuse
  refuse-log key now [] log = refl
  refuse-log key now (t ∷ times) log = refl

  admit-Covers :
      (key : String) (now : ℕ) (log : List (String × ℕ)) (requests : Requests)
      → Covers now log requests
      → let (v, requests') = admit limiter key now (times_of key requests) requests in
        Covers now (log_of v key now log) requests'
  unfolding admit
  admit-Covers key now log requests c =
      let old = times_of key requests in
      let times = drop_old limiter now old in
      let rises = drop_old-Rises limiter now now old (c.rises key) in
      elim (Bool-cases (leb limiter.maximum_requests (length times))) [
        | inl full ↦
            rw (full, refuse-log key now times log)
              (put-Covers key now times log log requests c rises
                (omega (arith, c.limited key, length-drop_old limiter now old))
                (λ s h. rw (drop_old-recent limiter now s old h) (c.covered key s h))
                (λ k s n. refl))
        | inr free ↦ rw free (
            put-Covers key now (times ++ now ∷ []) log ((key, now) ∷ log) requests c
              (append-Rises now now times (omega arith) rises)
              (ground (arith, free, length-append times (now ∷ [])))
              (λ s h.
                rw
                  (
                    sum_of-append (is_recent limiter s) (λ _. 1) times (now ∷ []),
                    drop_old-recent limiter now s old h,
                  )
                  (ground (arith, c.covered key s h)))
              (λ k s n. ground (arith, n)))
      ]

  check-Covers :
      (key : String) (now : ℕ) (log : List (String × ℕ)) (requests : Requests)
      → Covers now log requests
      → let (v, requests') = check limiter key now requests in
        Covers now (log_of v key now log) requests'
  unfolding check
  check-Covers key now log requests c = elim (Option-cases (requests_of key requests)) [
    | inr (times, known) ↦
        let same : check limiter key now requests
            ≡ admit limiter key now (times_of key requests) requests =
          ground (arith, known) in
        rw same (admit-Covers key now log requests c)
    | inl new ↦
        let roomy = make_room limiter now requests in
        let covers = make_room-Covers now log requests c in
        elim (Bool-cases (leb limiter.maximum_keys (length roomy))) [
          | inl full ↦
              let same : check limiter key now requests
                  ≡ (retry_after limiter.window_seconds, roomy) =
                ground (arith, new, full) in
              rw same covers
          | inr free ↦
              let none_yet = make_room-absent limiter now key requests new in
              let same : check limiter key now requests
                  ≡ admit limiter key now (times_of key roomy) roomy =
                ground (arith, new, free, none_yet) in
              rw same (admit-Covers key now log roomy covers)
        ]
  ]

  -- the requests that the limiter admits, from calls of `check` in order
  unfoldable pub serve :
      List (String × ℕ) → List (String × ℕ) → Requests → List (String × ℕ) × Requests
  serve [] log requests = (log, requests)
  serve ((key, now) ∷ calls) log requests =
      let (v, requests') = check limiter key now requests in
      serve calls (log_of v key now log) requests'

  -- the time of the last call, for calls at times that do not decrease
  abbrev pub IsOrdered : ℕ → List (String × ℕ) → Type 0
  IsOrdered t [] = Unit
  IsOrdered t ((_, now) ∷ calls) = (t ≤ now) × IsOrdered now calls

  abbrev pub last_time : ℕ → List (String × ℕ) → ℕ
  last_time t [] = t
  last_time t ((_, now) ∷ calls) = last_time now calls

  serve-Covers :
      (calls log : List (String × ℕ)) (requests : Requests) (t : ℕ)
      → IsOrdered t calls
      → Covers t log requests
      → let (log', requests') = serve calls log requests in
        Covers (last_time t calls) log' requests'
  unfolding serve
  serve-Covers [] log requests t o c = c
  serve-Covers ((key, now) ∷ calls) log requests t (l, o) c =
      let (v, requests') = check limiter key now requests in
      serve-Covers calls (log_of v key now log) requests' now o
        (check-Covers key now log requests (Covers-le t now log requests l c))

  -- For calls at times that do not decrease, the requests admitted under a key within the window
  -- at the time of the last call, or at any later instant, are at most the limit.
  pub serve-within-le :
      (calls : List (String × ℕ)) (key : String) (s : ℕ)
      → IsOrdered 0 calls
      → last_time 0 calls ≤ s
      → within s key (serve calls [] []).0 ≤ limiter.maximum_requests
  serve-within-le calls key s o l =
      let (log, requests) = serve calls [] [] in
      let c = serve-Covers calls [] [] 0 o (record {
        dict = tt;
        rises = λ k. tt;
        limited = λ k. omega arith;
        covered = λ k s h. omega arith;
      }) in
      omega
        (arith, c.covered key s l, c.limited key, recent-length limiter s (times_of key requests))
