-- ===== src/Effect/Keeps.antt =====
-- Predicates on the session's state that an action keeps, whether it returns or raises.
use balloon_crumbs.Prelude.{Bool, true, false, ◌≡◌, refl}
use balloon_crumbs.Result.{Fault, Result, ok, err}
use balloon_crumbs.Effect.{Exec, lift, transaction, ◌>>=◌, modify, raise_if, continue, settle}

abbrev pub Keeps : {S A : Type 0} → (S → Type 0) → Exec S A → Type 0
Keeps {S} P m = (s : S) → P s → P (m s).1

module _ {S A : Type 0} (P : S → Type 0) where
  settle-Keeps : (r : Result A) (s s' : S) → P s → P s' → P (settle r s s').1
  settle-Keeps (ok a) s s' h h' = h'
  settle-Keeps (err e) s s' h h' = h

  pub transaction-Keeps : (m : Exec S A) → Keeps P m → Keeps P (transaction m)
  transaction-Keeps m k s h = settle-Keeps (m s).0 s (m s).1 h (k s h)

-- A write after a test and a computation that may fail: only the state it ends in matters.
pub guarded-Keeps :
    {S A : Type 0} (P : S → Type 0) (b : Bool) (e : Fault) (r : Result A) (f : A → S → S) (s : S)
    → P s
    → (b ≡ false → (a : A) → P (f a s))
    → P ((raise_if b e >>= λ _. lift r >>= λ a. modify (f a)) s).1
guarded-Keeps P true e r f s h k = h
guarded-Keeps P false e (ok a) f s h k = k refl a
guarded-Keeps P false e (err e') f s h k = h

-- A block that goes on after an action.
pub then-Keeps :
    {S A B : Type 0} (P : S → Type 0) (r : Result A) (f : A → Exec S B) (s : S)
    → P s
    → ((a : A) → Keeps P (f a))
    → P (continue r f s).1
then-Keeps P (ok a) f s h k = k a s h
then-Keeps P (err e) f s h k = h

-- A block that goes on with the result of a computation, which the proof may use.
pub result-Keeps :
    {S A B : Type 0} (P : S → Type 0) (r : Result A) (f : A → Exec S B) (s : S)
    → P s
    → ((a : A) → r ≡ ok a → P (f a s).1)
    → P (continue r f s).1
result-Keeps P (ok a) f s h k = k a refl
result-Keeps P (err e) f s h k = h

-- A block that goes on after a test.
pub test-Keeps :
    {S B : Type 0} (P : S → Type 0) (b : Bool) (e : Fault) (f : Unit {0} → Exec S B) (s : S)
    → P s
    → (b ≡ false → P (f tt s).1)
    → P ((raise_if b e >>= f) s).1
test-Keeps P true e f s h k = h
test-Keeps P false e f s h k = k refl
