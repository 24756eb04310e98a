-- ===== src/RateLimit/Times.antt =====
-- The dictionary of the limiter and the times in it
-- (apps/server/src/balloon_crumbs_server/rate_limit.py).
use balloon_crumbs.Prelude.{
  subst, ◌≡◌, refl, inl, inr, ℕ, ◌≤◌, String, Bool, false, none, some, List, [], ◌∷◌, ◌++◌, arith,
  str_eq, eq_iff, if◌then◌else◌, Bool-cases, length, keep, last_or, count_of,
}
use balloon_crumbs.RateLimit.Bounds.{keep-absent}
use balloon_crumbs.RateLimit.{
  SlidingWindowRateLimiter, Requests, requests_of, put_requests, drop_old, is_active, is_recent,
}

-- the times under a key that has none, if it is unknown
abbrev pub times_of : String → Requests → List ℕ
times_of key requests = elim (requests_of key requests) [ none ↦ [] | some times ↦ times ]

-- every key stands in the dictionary once
abbrev pub IsDict : Requests → Type 0
IsDict [] = Unit
IsDict ((key, _) ∷ requests) = (requests_of key requests ≡ none) × IsDict requests

-- The times are in order, and no later than `t`.
abbrev pub Rises : ℕ → List ℕ → Type 0
Rises t [] = Unit
Rises t (x ∷ xs) = (x ≤ last_or x xs) × (last_or x xs ≤ t) × Rises t xs

pub keep-IsDict :
    (p : String × List ℕ → Bool) (requests : Requests) → IsDict requests → IsDict (keep p requests)
keep-IsDict p [] h = tt
keep-IsDict p ((key, times) ∷ requests) (a, h) = elim (Bool-cases (p (key, times))) [
  | inl y ↦ rw y (keep-absent p key requests a, keep-IsDict p requests h)
  | inr n ↦ rw n (keep-IsDict p requests h)
]

pub put_requests-of :
    (key k : String) (times : List ℕ) (requests : Requests)
    → requests_of k (put_requests key times requests)
      ≡ (if str_eq key k then some times else requests_of k requests)
put_requests-of key k times [] = ground arith
put_requests-of key k times ((x, old) ∷ requests) =
    ground (arith, put_requests-of key k times requests, eq_iff x key, eq_iff x k, eq_iff key k)

pub put_requests-IsDict :
    (key : String) (times : List ℕ) (requests : Requests)
    → IsDict requests
    → IsDict (put_requests key times requests)
put_requests-IsDict key times [] h = (refl, tt)
put_requests-IsDict key times ((x, old) ∷ requests) (a, h) = elim (Bool-cases (str_eq x key)) [
  | inl y ↦ rw y (subst (λ k. requests_of k requests ≡ none) ((eq_iff x key).0 y) a, h)
  | inr n ↦ rw n (
    ground (arith, a, n, put_requests-of key x times requests, eq_iff key x, eq_iff x key),
    put_requests-IsDict key times requests h,
  )
]

module _ (limiter : SlidingWindowRateLimiter) where
  -- the times of some requests that are within the window at an instant
  abbrev pub recent : ℕ → List ℕ → ℕ
  recent s times = count_of (is_recent limiter s) times

  pub drop_old-recent :
      (now s : ℕ) (times : List ℕ)
      → now ≤ s
      → recent s (drop_old limiter now times) ≡ recent s times
  unfolding drop_old
  drop_old-recent now s [] h = refl
  drop_old-recent now s (t ∷ times) h = ground (arith, drop_old-recent now s times)

  pub drop_old-Rises :
      (now t : ℕ) (times : List ℕ) → Rises t times → Rises t (drop_old limiter now times)
  unfolding drop_old
  drop_old-Rises now t [] h = tt
  drop_old-Rises now t (x ∷ xs) (a, b, h) = elim (Bool-cases (is_recent limiter now x)) [
    | inl y ↦ rw y (a, b, h)
    | inr n ↦ rw n (drop_old-Rises now t xs h)
  ]

  -- A key that is pruned has no time in the window any more.
  pub inactive-recent :
      (now s t : ℕ) (times : List ℕ)
      → Rises t times
      → is_active limiter now times ≡ false
      → now ≤ s
      → recent s times ≡ 0
  inactive-recent now s t [] h i l = refl
  inactive-recent now s t (x ∷ []) h i l = ground arith
  inactive-recent now s t (x ∷ y ∷ xs) (a, b, h) i l =
      ground (arith, inactive-recent now s t (y ∷ xs) h)

  pub recent-length : (s : ℕ) (times : List ℕ) → recent s times ≤ length times
  recent-length s [] = omega arith
  recent-length s (x ∷ xs) = ground (arith, recent-length s xs)

pub last_or-append : (d now : ℕ) (times : List ℕ) → last_or d (times ++ now ∷ []) ≡ now
last_or-append d now [] = refl
last_or-append d now (x ∷ xs) = last_or-append x now xs

pub append-Rises :
    (t now : ℕ) (times : List ℕ) → t ≤ now → Rises t times → Rises now (times ++ now ∷ [])
append-Rises t now [] h r = (omega arith, omega arith, tt)
append-Rises t now (x ∷ xs) h (a, b, r) = (
  omega (arith, last_or-append x now xs, a, b, h),
  omega (arith, last_or-append x now xs),
  append-Rises t now xs h r,
)

pub Rises-le : (t t' : ℕ) (times : List ℕ) → t ≤ t' → Rises t times → Rises t' times
Rises-le t t' [] h r = tt
Rises-le t t' (x ∷ xs) h (a, b, r) = (a, omega (arith, b, h), Rises-le t t' xs h r)
