-- ===== src/Effect/Inversion.antt =====
-- What a block that returned has done: the values of its steps, and the state that it ends in.
use balloon_crumbs.Prelude.{Bool, true, false, ◌≡◌, refl, ap}
use balloon_crumbs.Result.{Fault, Result, ok, err}
use balloon_crumbs.Effect.{Exec, transaction, ◌>>=◌, raise_if, continue, settle}

module _ {S A B : Type 0} {P : Type 0} where
  pub continue-invert :
      (r : Result A) (f : A → Exec S B) (s s' : S) (b : B)
      → continue r f s ≡ (ok b, s')
      → ((a : A) → r ≡ ok a → f a s ≡ (ok b, s') → P)
      → P
  continue-invert (ok a) f s s' b h k = k a refl h
  continue-invert (err e) f s s' b h k = cc

module _ {S B P : Type 0} where
  pub test-invert :
      (b : Bool) (e : Fault) (f : Unit {0} → Exec S B) (s s' : S) (x : B)
      → (raise_if b e >>= f) s ≡ (ok x, s')
      → (b ≡ false → f tt s ≡ (ok x, s') → P)
      → P
  test-invert true e f s s' x h k = cc
  test-invert false e f s s' x h k = k refl h

settle-ok :
    {S A : Type 0} (r : Result A) (s s1 s' : S) (a : A)
    → settle r s s1 ≡ (ok a, s')
    → (r ≡ ok a) × (s1 ≡ s')
settle-ok (ok x) s s1 s' a h = (ap (λ p. p.0) h, ap (λ p. p.1) h)
settle-ok (err e) s s1 s' a h = cc

-- A transaction that returned has committed what its block did.
pub transaction-ok :
    {S A : Type 0} (m : Exec S A) (s s' : S) (a : A)
    → transaction m s ≡ (ok a, s')
    → m s ≡ (ok a, s')
transaction-ok m s s' a h = let (r, t) = settle-ok (m s).0 s (m s).1 s' a h in cc
