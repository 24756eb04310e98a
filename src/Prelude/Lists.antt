-- ===== src/Prelude/Lists.antt =====
-- Lists measured by native numbers, and the queries that the tables are read by.
use Prim.Native.Nat.{ℕ, zero, suc, ◌+◌, ◌≤◌}
use mathlib.Core.Path.{◌≡◌, refl}
use mathlib.Core.Bool.{Bool, true, false, not, ◌&&◌, ◌||◌}
use mathlib.Core.List.{List, [], ◌∷◌, ◌++◌}
use mathlib.Core.Option.{Option, none, some}
use native.Mathlib.Omega.{arith}
use balloon_crumbs.Prelude.Tests.{if◌then◌else◌}

module _ {ℓ} {A : Type ℓ} where
  abbrev pub length : List A → ℕ
  length [] = 0
  length (x ∷ xs) = suc (length xs)

  abbrev pub take : ℕ → List A → List A
  take zero xs = []
  take (suc n) [] = []
  take (suc n) (x ∷ xs) = x ∷ take n xs

  abbrev pub drop : ℕ → List A → List A
  drop zero xs = xs
  drop (suc n) [] = []
  drop (suc n) (x ∷ xs) = drop n xs

  -- the rows that a `WHERE` clause keeps
  abbrev pub keep : (A → Bool) → List A → List A
  keep p [] = []
  keep p (x ∷ xs) = if p x then x ∷ keep p xs else keep p xs

  -- the first row that a `WHERE` clause keeps, as `session.scalar` returns it
  abbrev pub find : (A → Bool) → List A → Option A
  find p [] = none
  find p (x ∷ xs) = if p x then some x else find p xs

  abbrev pub all : (A → Bool) → List A → Bool
  all p [] = true
  all p (x ∷ xs) = p x && all p xs

  abbrev pub any : (A → Bool) → List A → Bool
  any p [] = false
  any p (x ∷ xs) = p x || any p xs

  -- `SUM` over the rows that a `WHERE` clause keeps
  abbrev pub sum_of : (A → Bool) → (A → ℕ) → List A → ℕ
  sum_of p f [] = 0
  sum_of p f (x ∷ xs) = if p x then f x + sum_of p f xs else sum_of p f xs

  abbrev pub last_or : A → List A → A
  last_or d [] = d
  last_or d (x ∷ xs) = last_or x xs

  pub length-append : (xs ys : List A) → length (xs ++ ys) ≡ length xs + length ys
  length-append [] ys = omega arith
  length-append (x ∷ xs) ys = omega (arith, length-append xs ys)

  pub sum_of-append :
      (p : A → Bool) (f : A → ℕ) (xs ys : List A)
      → sum_of p f (xs ++ ys) ≡ sum_of p f xs + sum_of p f ys
  sum_of-append p f [] ys = omega arith
  sum_of-append p f (x ∷ xs) ys = ground (arith, sum_of-append p f xs ys)

  -- A `DELETE` removes from a sum what the rows that it deletes count there.
  pub sum_of-keep :
      (p q : A → Bool) (f : A → ℕ) (xs : List A)
      → sum_of p f (keep (λ x. not (q x)) xs) + sum_of (λ x. p x && q x) f xs ≡ sum_of p f xs
  sum_of-keep p q f [] = refl
  sum_of-keep p q f (x ∷ xs) = ground (arith, sum_of-keep p q f xs)

  pub sum_of-keep-le :
      (p q : A → Bool) (f : A → ℕ) (xs : List A) → sum_of p f (keep q xs) ≤ sum_of p f xs
  sum_of-keep-le p q f [] = omega arith
  sum_of-keep-le p q f (x ∷ xs) = ground (arith, sum_of-keep-le p q f xs)

  pub length-keep-le : (p : A → Bool) (xs : List A) → length (keep p xs) ≤ length xs
  length-keep-le p [] = omega arith
  length-keep-le p (x ∷ xs) = ground (arith, length-keep-le p xs)

  pub keep-append : (p : A → Bool) (xs ys : List A) → keep p (xs ++ ys) ≡ keep p xs ++ keep p ys
  keep-append p [] ys = refl
  keep-append p (x ∷ xs) ys = ground (arith, keep-append p xs ys)

-- `COUNT` of the rows that a `WHERE` clause keeps
abbrev pub count_of {ℓ} : {A : Type ℓ} → (A → Bool) → List A → ℕ
count_of p xs = sum_of p (λ _. 1) xs

-- `value in values`, for texts and anything else with a Boolean equality
abbrev pub contains {ℓ} : {A : Type ℓ} → (A → A → Bool) → A → List A → Bool
contains eq a [] = false
contains eq a (x ∷ xs) = eq a x || contains eq a xs
