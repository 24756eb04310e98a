-- ===== src/RateLimit.antt =====
-- The sliding-window limiter of requests:
-- apps/server/src/balloon_crumbs_server/rate_limit.py. `time.monotonic()` is an argument, in
-- microseconds; the lock makes every check one step.
pub mod Bounds
pub mod Times
pub mod Window
pub mod Retry
use balloon_crumbs.Prelude.{
  subst, ◌≡◌, refl, sym, ap, ◌∙◌, ◌≢◌, ◌↔◌, ◌⊎◌, inl, inr, ℕ, zero, suc, ◌+◌, ◌-◌, ◌*◌, ◌/◌, ◌%◌,
  ◌^◌, ◌≤◌, ◌<◌, min, max, String, Bool, true, false, not, ◌&&◌, ◌||◌, Option, none, some, List, [],
  ◌∷◌, ◌++◌, map, arith, str_eq, eq_iff, ltb, leb, ◌==◌, if◌then◌else◌, ==_iff, ltb→lt, leb→le,
  Bool-cases, Option-cases, is_some, length, take, drop, keep, find, all, any, sum_of, last_or,
  length-append, sum_of-append, sum_of-keep, length-keep-le, keep-append, count_of, contains,
}
use balloon_crumbs.Env.{seconds}

pub record SlidingWindowRateLimiter : Type 0 where
  pub maximum_requests : ℕ
  pub window_seconds : ℕ
  pub maximum_keys : ℕ

-- `self._requests`: the times of the requests admitted under each key
abbrev pub Requests : Type 0
Requests = List (String × List ℕ)

-- What `check` returns: `None`, the seconds to wait, or the `IndexError` of a limit of zero.
pub data Verdict : Type 0 where
  admitted index_error : Verdict
  retry_after : ℕ → Verdict

abbrev pub requests_of : String → Requests → Option (List ℕ)
requests_of key [] = none
requests_of key ((k, times) ∷ requests) =
    if str_eq k key then some times else requests_of key requests

abbrev pub put_requests : String → List ℕ → Requests → Requests
put_requests key times [] = (key, times) ∷ []
put_requests key times ((k, old) ∷ requests) =
    if str_eq k key then (key, times) ∷ requests else (k, old) ∷ put_requests key times requests

module _ (limiter : SlidingWindowRateLimiter) where
  abbrev pub window : ℕ
  window = seconds limiter.window_seconds

  -- `time > now - window`
  abbrev pub is_recent : ℕ → ℕ → Bool
  is_recent now time = ltb now (time + window)

  -- `if values and values[-1] > threshold`
  abbrev pub is_active : ℕ → List ℕ → Bool
  is_active now [] = false
  is_active now (t ∷ times) = is_recent now (last_or t times)

  -- the `while` loop over `popleft`
  unfoldable pub drop_old : ℕ → List ℕ → List ℕ
  drop_old now [] = []
  drop_old now (t ∷ times) = if is_recent now t then t ∷ times else drop_old now times

  -- `self._requests`, pruned when it has no room for a new key
  unfoldable pub make_room : ℕ → Requests → Requests
  make_room now requests =
      if leb limiter.maximum_keys (length requests)
      then keep (λ entry. is_active now entry.1) requests
      else requests

  -- the seconds until the oldest request leaves the window
  unfoldable pub retry_of : ℕ → ℕ → ℕ
  retry_of now oldest = max 1 ((oldest + window - now) / 1000000 + 1)

  unfoldable pub refuse : ℕ → List ℕ → Verdict
  unfolding retry_of
  refuse now [] = index_error
  refuse now (t ∷ times) = retry_after (retry_of now t)

  -- The deque is shared with the dictionary, so the loop's removals stay when the request is refused.
  unfoldable pub admit : String → ℕ → List ℕ → Requests → Verdict × Requests
  unfolding drop_old refuse
  admit key now old requests =
      let times = drop_old now old in
      if leb limiter.maximum_requests (length times)
      then (refuse now times, put_requests key times requests)
      else (admitted, put_requests key (times ++ now ∷ []) requests)

  unfoldable pub check : String → ℕ → Requests → Verdict × Requests
  unfolding admit make_room
  check key now requests = elim (requests_of key requests) [
    | some times ↦ admit key now times requests
    | none ↦
        let roomy = make_room now requests in
        if leb limiter.maximum_keys (length roomy)
        then (retry_after limiter.window_seconds, roomy)
        else admit key now [] roomy
  ]
