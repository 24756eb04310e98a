-- ===== src/RateLimit/Bounds.antt =====
-- The memory of the limiter (apps/server/src/balloon_crumbs_server/rate_limit.py).
use balloon_crumbs.Prelude.{
  ◌≡◌, refl, inl, inr, ℕ, ◌+◌, ◌≤◌, String, Bool, true, none, some, List, [], ◌∷◌, ◌++◌, arith, leb,
  if◌then◌else◌, Bool-cases, Option-cases, is_some, length, keep, all, length-append,
  length-keep-le,
}
use balloon_crumbs.RateLimit.{
  SlidingWindowRateLimiter, Requests, requests_of, put_requests, drop_old, make_room, admit, check,
  is_active,
}

-- No more keys than the limiter allows, and no more times under any of them.
pub record IsBounded (limiter : SlidingWindowRateLimiter) (requests : Requests) : Type 0 where
  pub keys : length requests ≤ limiter.maximum_keys
  pub times : all (λ entry. leb (length entry.1) limiter.maximum_requests) requests ≡ true

length-put_requests :
    (key : String) (times : List ℕ) (requests : Requests)
    → length (put_requests key times requests)
      ≡ (if is_some (requests_of key requests) then length requests else length requests + 1)
length-put_requests key times [] = ground arith
length-put_requests key times (entry ∷ requests) =
    ground (arith, length-put_requests key times requests)

pub keep-absent :
    (p : String × List ℕ → Bool) (key : String) (requests : Requests)
    → requests_of key requests ≡ none
    → requests_of key (keep p requests) ≡ none
keep-absent p key [] h = refl
keep-absent p key (entry ∷ requests) h = ground (arith, keep-absent p key requests)

module _ (limiter : SlidingWindowRateLimiter) where
  abbrev fits : String × List ℕ → Bool
  fits entry = leb (length entry.1) limiter.maximum_requests

  all-put_requests :
      (key : String) (times : List ℕ) (requests : Requests)
      → all fits requests ≡ true
      → length times ≤ limiter.maximum_requests
      → all fits (put_requests key times requests) ≡ true
  all-put_requests key times [] h l = ground arith
  all-put_requests key times (entry ∷ requests) h l =
      ground (arith, all-put_requests key times requests)

  all-keep :
      (p : String × List ℕ → Bool) (requests : Requests)
      → all fits requests ≡ true
      → all fits (keep p requests) ≡ true
  all-keep p [] h = refl
  all-keep p (entry ∷ requests) h = ground (arith, all-keep p requests)

  pub all-requests_of :
      (key : String) (requests : Requests) (times : List ℕ)
      → all fits requests ≡ true
      → requests_of key requests ≡ some times
      → length times ≤ limiter.maximum_requests
  all-requests_of key [] times h e = cc
  all-requests_of key (entry ∷ requests) times h e =
      ground (arith, all-requests_of key requests times)

  pub length-drop_old :
      (now : ℕ) (times : List ℕ) → length (drop_old limiter now times) ≤ length times
  unfolding drop_old
  length-drop_old now [] = omega arith
  length-drop_old now (t ∷ times) = ground (arith, length-drop_old now times)

  admit-IsBounded :
      (key : String) (now : ℕ) (old : List ℕ) (requests : Requests)
      → all fits requests ≡ true
      → length old ≤ limiter.maximum_requests
      → length (put_requests key old requests) ≤ limiter.maximum_keys
      → IsBounded limiter (admit limiter key now old requests).1
  unfolding admit
  admit-IsBounded key now old requests h l k =
      let times = drop_old limiter now old in
      elim (Bool-cases (leb limiter.maximum_requests (length times))) [
        | inl full ↦ rw full (record {
          keys = ground (
            arith,
            k,
            length-put_requests key times requests,
            length-put_requests key old requests,
          );
          times = all-put_requests key times requests h (omega (arith, l, length-drop_old now old));
        })
        | inr free ↦ rw free (record {
          keys = ground (
            arith,
            k,
            length-put_requests key (times ++ now ∷ []) requests,
            length-put_requests key old requests,
          );
          times =
              all-put_requests key (times ++ now ∷ []) requests h
                (ground (arith, free, length-append times (now ∷ [])));
        })
      ]

  make_room-fits :
      (now : ℕ) (requests : Requests)
      → all fits requests ≡ true
      → all fits (make_room limiter now requests) ≡ true
  unfolding make_room
  make_room-fits now requests h =
      ground (arith, h, all-keep (λ entry. is_active limiter now entry.1) requests)

  make_room-length :
      (now : ℕ) (requests : Requests) → length (make_room limiter now requests) ≤ length requests
  unfolding make_room
  make_room-length now requests =
      ground (arith, length-keep-le (λ entry. is_active limiter now entry.1) requests)

  pub make_room-absent :
      (now : ℕ) (key : String) (requests : Requests)
      → requests_of key requests ≡ none
      → requests_of key (make_room limiter now requests) ≡ none
  unfolding make_room
  make_room-absent now key requests h =
      ground (arith, h, keep-absent (λ entry. is_active limiter now entry.1) key requests)

  -- If there are at most `maximum_keys` keys with at most `maximum_requests` times each, this is so
  -- after a check too, whether it admits the request or not.
  pub check-IsBounded :
      (key : String) (now : ℕ) (requests : Requests)
      → IsBounded limiter requests
      → IsBounded limiter (check limiter key now requests).1
  unfolding check
  check-IsBounded key now requests h = elim (Option-cases (requests_of key requests)) [
    | inr (times, known) ↦
        let same : check limiter key now requests ≡ admit limiter key now times requests =
          ground (arith, known) in
        rw same (
          admit-IsBounded key now times requests h.times
            (all-requests_of key requests times h.times known)
            (ground (arith, known, h.keys, length-put_requests key times requests)))
    | inl new ↦
        let roomy = make_room limiter now requests in
        let fitting = make_room-fits now requests h.times in
        elim (Bool-cases (leb limiter.maximum_keys (length roomy))) [
          | inl full ↦
              let same : (check limiter key now requests).1 ≡ roomy = ground (arith, new, full) in
              rw same (record {
                keys = omega (arith, h.keys, make_room-length now requests);
                times = fitting;
              })
          | inr free ↦
              let same : check limiter key now requests ≡ admit limiter key now [] roomy =
                ground (arith, new, free) in
              rw same (
                admit-IsBounded key now [] roomy fitting (omega arith) (
                  ground (
                    arith,
                    free,
                    length-put_requests key [] roomy,
                    make_room-absent now key requests new,
                  )))
        ]
  ]
