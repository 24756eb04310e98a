-- ===== src/RateLimit/Retry.antt =====
-- What a refused request is told to wait (apps/server/src/balloon_crumbs_server/rate_limit.py).
use balloon_crumbs.Prelude.{
  subst, ◌<◌, ◌≡◌, refl, inl, inr, sym, ◌∙◌, ℕ, ◌+◌, ◌≤◌, String, Bool, true, false, none, some,
  List, [], ◌∷◌, arith, leb, Bool-cases, Option-cases, eq_refl, length, keep, all, last_or,
}
use balloon_crumbs.RateLimit.{
  SlidingWindowRateLimiter, Requests, Verdict, admitted, retry_after, requests_of, put_requests,
  drop_old, make_room, refuse, admit, check, is_active, retry_of, is_recent,
}
use balloon_crumbs.RateLimit.Bounds.{IsBounded, length-drop_old, make_room-absent, all-requests_of}
use balloon_crumbs.RateLimit.Times.{put_requests-of}
use balloon_crumbs.Env.{seconds}

-- No key's last time is in the future, as the clock is monotonic.
abbrev pub IsPast : ℕ → Requests → Type 0
IsPast now requests = all (λ entry. leb (last_or 0 entry.1) now) requests ≡ true

admitted≢retry : (wait : ℕ) → ¬ (◌≡◌ {A = Verdict} admitted (retry_after wait))
admitted≢retry wait h = cc

retry-injective : {a b : ℕ} → retry_after a ≡ retry_after b → a ≡ b
retry-injective h = cc

module _ (limiter : SlidingWindowRateLimiter) where
  retry_of-suffices :
      (now oldest : ℕ)
      → is_recent limiter (now + seconds (retry_of limiter now oldest)) oldest ≡ false
  unfolding retry_of seconds
  retry_of-suffices now oldest = ground arith

  drop_old-shorter :
      (later t : ℕ) (times : List ℕ)
      → is_recent limiter later t ≡ false
      → length (drop_old limiter later (t ∷ times)) ≤ length times
  unfolding drop_old
  drop_old-shorter later t times h = ground (arith, h, length-drop_old limiter later times)

  admit-admitted :
      (key : String) (later : ℕ) (times : List ℕ) (requests : Requests)
      → length (drop_old limiter later times) < limiter.maximum_requests
      → (admit limiter key later times requests).0 ≡ admitted
  unfolding admit
  admit-admitted key later times requests h =
      let free : leb limiter.maximum_requests (length (drop_old limiter later times)) ≡ false =
        ground (arith, h) in
      rw free refl

  waited :
      (now t wait : ℕ) (times : List ℕ)
      → refuse limiter now (t ∷ times) ≡ retry_after wait
      → wait ≡ retry_of limiter now t
  unfolding refuse
  waited now t wait times h = cc

  no_wait : (now wait : ℕ) → ¬ (refuse limiter now [] ≡ retry_after wait)
  unfolding refuse
  no_wait now wait h = cc

  -- Once the oldest time has left the window, there is room for the request.
  refuse-admit :
      (key : String) (now wait : ℕ) (times : List ℕ) (requests : Requests)
      → length times ≤ limiter.maximum_requests
      → refuse limiter now times ≡ retry_after wait
      → (admit limiter key (now + seconds wait) times requests).0 ≡ admitted
  refuse-admit key now wait [] requests l h = absurd (no_wait now wait h)
  refuse-admit key now wait (t ∷ times) requests l h =
      let old =
        subst (λ w. is_recent limiter (now + seconds w) t ≡ false) (sym (waited now t wait times h))
          (retry_of-suffices now t) in
      admit-admitted key (now + seconds wait) (t ∷ times) requests
        (omega (arith, l, drop_old-shorter (now + seconds wait) t times old))

  stale-all :
      (now : ℕ) (requests : Requests)
      → IsPast now requests
      → keep (λ entry. is_active limiter (now + seconds limiter.window_seconds) entry.1) requests
        ≡ []
  stale-all now [] h = refl
  stale-all now ((k, []) ∷ requests) h = ground (arith, h, stale-all now requests)
  stale-all now ((k, t ∷ times) ∷ requests) h = ground (arith, h, stale-all now requests)

  -- Once the window has passed, every key can be forgotten.
  stale :
      (now : ℕ) (p : String × List ℕ → Bool) (requests : Requests)
      → IsPast now requests
      → keep
          (λ entry. is_active limiter (now + seconds limiter.window_seconds) entry.1)
          (keep p requests)
        ≡ []
  stale now p [] h = refl
  stale now p ((k, []) ∷ requests) h = ground (arith, h, stale now p requests)
  stale now p ((k, t ∷ times) ∷ requests) h = ground (arith, h, stale now p requests)

  stale_rooms :
      (now : ℕ) (requests : Requests)
      → IsPast now requests
      → keep
          (λ entry. is_active limiter (now + seconds limiter.window_seconds) entry.1)
          (make_room limiter now requests)
        ≡ []
  unfolding make_room
  stale_rooms now requests h = elim (Bool-cases (leb limiter.maximum_keys (length requests))) [
    | inl full ↦ rw full (stale now (λ entry. is_active limiter now entry.1) requests h)
    | inr free ↦ rw free (stale-all now requests h)
  ]

  room-full :
      (later : ℕ) (requests : Requests)
      → leb limiter.maximum_keys (length requests) ≡ true
      → make_room limiter later requests ≡ keep (λ entry. is_active limiter later entry.1) requests
  unfolding make_room
  room-full later requests h = rw h refl

  check-known :
      (key : String) (now : ℕ) (times : List ℕ) (requests : Requests)
      → requests_of key requests ≡ some times
      → check limiter key now requests ≡ admit limiter key now times requests
  unfolding check
  check-known key now times requests h = ground (arith, h)

  check-full :
      (key : String) (now : ℕ) (requests : Requests)
      → requests_of key requests ≡ none
      → leb limiter.maximum_keys (length (make_room limiter now requests)) ≡ true
      → check limiter key now requests
        ≡ (retry_after limiter.window_seconds, make_room limiter now requests)
  unfolding check
  check-full key now requests h full = ground (arith, h, full)

  check-new :
      (key : String) (now : ℕ) (requests : Requests)
      → requests_of key requests ≡ none
      → leb limiter.maximum_keys (length (make_room limiter now requests)) ≡ false
      → check limiter key now requests ≡ admit limiter key now [] (make_room limiter now requests)
  unfolding check
  check-new key now requests h free = ground (arith, h, free)

  admit-refused :
      (key : String) (now wait : ℕ) (old : List ℕ) (requests : Requests)
      → (admit limiter key now old requests).0 ≡ retry_after wait
      → (refuse limiter now (drop_old limiter now old) ≡ retry_after wait)
        × ((admit limiter key now old requests).1
            ≡ put_requests key (drop_old limiter now old) requests)
  unfolding admit
  admit-refused key now wait old requests h =
      elim (Bool-cases (leb limiter.maximum_requests (length (drop_old limiter now old)))) [
        | inl full ↦ (rw full at h, rw full refl)
        | inr free ↦ absurd (admitted≢retry wait (rw free at h))
      ]

  -- a refusal for the requests of the key, which are written back
  retries-window :
      (key : String) (now wait : ℕ) (old : List ℕ) (requests : Requests)
      → length old ≤ limiter.maximum_requests
      → (admit limiter key now old requests).0 ≡ retry_after wait
      → (check limiter key (now + seconds wait) (admit limiter key now old requests).1).0 ≡ admitted
  retries-window key now wait old requests l h =
      let (told, left) = admit-refused key now wait old requests h in
      let times = drop_old limiter now old in
      let after = put_requests key times requests in
      let known : requests_of key after ≡ some times =
        ground (arith, put_requests-of key key times requests, eq_refl key) in
      rw (left, check-known key (now + seconds wait) times after known)
        (refuse-admit key now wait times after (omega (arith, l, length-drop_old limiter now old))
          told)

  -- a refusal because there is no room for another key
  retries-full :
      (key : String) (now : ℕ) (requests : Requests)
      → 1 ≤ limiter.maximum_keys
      → 1 ≤ limiter.maximum_requests
      → IsPast now requests
      → requests_of key requests ≡ none
      → leb limiter.maximum_keys (length (make_room limiter now requests)) ≡ true
      → (check limiter key
          (now + seconds limiter.window_seconds)
          (make_room limiter now requests)).0
        ≡ admitted
  retries-full key now requests k r past new full =
      let later = now + seconds limiter.window_seconds in
      let roomy = make_room limiter now requests in
      let emptied : make_room limiter later roomy ≡ [] =
        room-full later roomy full ∙ stale_rooms now requests past in
      let free : leb limiter.maximum_keys (length (make_room limiter later roomy)) ≡ false =
        rw emptied (ground (arith, k)) in
      rw (check-new key later roomy (make_room-absent limiter now key requests new) free) (
        admit-admitted key later [] (make_room limiter later roomy)
          (omega (arith, r, length-drop_old limiter later [])))

  -- A request that is refused and told to wait is admitted if it is made again after these seconds
  -- and no other request comes between, whether the key's requests or the number of keys were at
  -- the limit, where the limits are at least one, the memory is within them, and no time in it
  -- lies ahead.
  pub check_retries :
      (key : String) (now wait : ℕ) (requests : Requests)
      → 1 ≤ limiter.maximum_keys
      → 1 ≤ limiter.maximum_requests
      → IsBounded limiter requests
      → IsPast now requests
      → (check limiter key now requests).0 ≡ retry_after wait
      → (check limiter key (now + seconds wait) (check limiter key now requests).1).0 ≡ admitted
  check_retries key now wait requests k r bounded past h =
      elim (Option-cases (requests_of key requests)) [
        | inr (old, known) ↦
            let same = check-known key now old requests known in
            rw same (
              retries-window key now wait old requests
                (all-requests_of limiter key requests old bounded.times known) (rw same at h))
        | inl new ↦
            elim (Bool-cases (leb limiter.maximum_keys (length (make_room limiter now requests)))) [
              | inr free ↦
                  let same = check-new key now requests new free in
                  rw same (
                    retries-window key now wait [] (make_room limiter now requests) (omega arith)
                      (rw same at h))
              | inl full ↦
                  let same = check-full key now requests new full in
                  rw same (
                    subst
                      (λ w.
                        (check limiter key (now + seconds w) (make_room limiter now requests)).0
                        ≡ admitted)
                      (retry-injective (rw same at h))
                      (retries-full key now requests k r past new full))
            ]
      ]
