-- ===== src/Effect.antt =====
-- Sessions and transactions: what `session` and `with session.begin()` do in
-- apps/server/src/balloon_crumbs_server/service.py.
pub mod Keeps
pub mod Inversion
use balloon_crumbs.Prelude.{Bool, true, false, ◌≡◌, refl}
use balloon_crumbs.Result.{Fault, Result, ok, err}

-- An action on the session's state. What was written before a raise stays written until a
-- transaction rolls it back, so the state comes back beside the fault.
abbrev pub Exec : Type 0 → Type 0 → Type 0
Exec S A = S → Result A × S

module _ {S A : Type 0} where
  abbrev pub pure : A → Exec S A
  pure a s = (ok a, s)

  abbrev pub raise : Fault → Exec S A
  raise e s = (err e, s)

  abbrev pub lift : Result A → Exec S A
  lift r s = (r, s)

  abbrev pub gets : (S → A) → Exec S A
  gets f s = (ok (f s), s)

  abbrev pub settle : Result A → S → S → Result A × S
  settle (ok a) before after = (ok a, after)
  settle (err e) before after = (err e, before)

  -- `with session.begin():` commits at the end of the block, and rolls back if the block raises.
  abbrev pub transaction : Exec S A → Exec S A
  transaction m s = let (r, s') = m s in settle r s s'

module _ {S A B : Type 0} where
  abbrev pub continue : Result A → (A → Exec S B) → Exec S B
  continue (ok a) f s = f a s
  continue (err e) f s = (err e, s)

  infixl 5 ◌>>=◌ ◌>>◌
  abbrev pub ◌>>=◌ : Exec S A → (A → Exec S B) → Exec S B
  ◌>>=◌ m f s = let (r, s') = m s in continue r f s'

  abbrev pub ◌>>◌ : Exec S A → Exec S B → Exec S B
  m >> k = m >>= λ _. k

abbrev pub modify : {S : Type 0} → (S → S) → Exec S (Unit {0})
modify f s = (ok tt, f s)

-- `if test: raise fault`
abbrev pub raise_if : {S : Type 0} → Bool → Fault → Exec S (Unit {0})
raise_if true e = raise e
raise_if false e = pure tt

-- A block that raises leaves the committed state as it was.
settle-atomic :
    {S A : Type 0} (r : Result A) (s s' : S) (e : Fault)
    → (settle r s s').0 ≡ err e
    → (settle r s s').1 ≡ s
settle-atomic (ok a) s s' e h = cc
settle-atomic (err f) s s' e h = refl

pub transaction-atomic :
    {S A : Type 0} (m : Exec S A) (s : S) (e : Fault)
    → (transaction m s).0 ≡ err e
    → (transaction m s).1 ≡ s
transaction-atomic m s e h = settle-atomic (m s).0 s (m s).1 e h
