-- ===== src/Result.antt =====
-- Exceptions as values: what the functions of apps/server/src/balloon_crumbs_server raise.
use balloon_crumbs.Prelude.{
  ℕ, String, Bool, true, false, Option, none, some, ◌≡◌, refl, ◌⊎◌, inl, inr,
}

-- `RelayServiceError(status_code, message)`, `ValueError` (`UnicodeEncodeError` and
-- `JSONDecodeError` are subclasses of it), `TypeError`, `OverflowError`, the `InvalidTag` of AES-GCM, which is
-- no `ValueError`, and the `IntegrityError` of the database.
pub data Fault : Type 0 where
  relay_service_error : ℕ → String → Fault
  value_error type_error overflow_error invalid_tag integrity_error : Fault

pub data Result {ℓ} (A : Type ℓ) : Type ℓ where
  err : Fault → Result A
  ok : A → Result A

module _ {ℓ κ} {X : Type ℓ} {Y : Type κ} where
  infixl 5 ◌>>=◌
  -- A step that raises ends the function.
  abbrev pub ◌>>=◌ : Result X → (X → Result Y) → Result Y
  err fault >>= rest = err fault
  ok x >>= rest = rest x

infixl 5 ◌>>◌
abbrev pub ◌>>◌ : {X Y : Type 0} → Result X → Result Y → Result Y
first >> second = first >>= λ _. second

-- `if test: raise fault`
abbrev pub reject : Bool → Fault → Result (Unit {0})
reject true e = err e
reject false e = ok tt

abbrev pub or_raise : {A : Type 0} → Option A → Fault → Result A
or_raise none e = err e
or_raise (some a) e = ok a

-- `except ValueError as error: raise fault`: any other exception passes.
abbrev pub except_value_error : {A : Type 0} → Result A → Fault → Result A
except_value_error (err value_error) e = err e
except_value_error r e = r

pub >>=-eq-ok {ℓ κ} :
    {X : Type ℓ} {Y : Type κ} (r : Result X) (rest : X → Result Y) {y : Y}
    → (r >>= rest) ≡ ok y
    → (x : X) × (r ≡ ok x) × (rest x ≡ ok y)
>>=-eq-ok (err fault) rest e = cc
>>=-eq-ok (ok x) rest e = (x, refl, e)

-- The same, for a conclusion that the step's result and the rest give.
pub >>=-invert {ℓ κ μ} :
    {X : Type ℓ} {Y : Type κ} {P : Type μ} (r : Result X) (rest : X → Result Y) {y : Y}
    → (r >>= rest) ≡ ok y
    → ((x : X) → r ≡ ok x → rest x ≡ ok y → P)
    → P
>>=-invert (err fault) rest e k = cc
>>=-invert (ok x) rest e k = k x refl e

pub ok-injective {ℓ} : {A : Type ℓ} {a b : A} → ◌≡◌ {A = Result A} (ok a) (ok b) → a ≡ b
ok-injective e = cc

pub Result-cases {ℓ} :
    {A : Type ℓ} (r : Result A) → ((a : A) × (r ≡ ok a)) ⊎ ((e : Fault) × (r ≡ err e))
Result-cases (ok a) = inl (a, refl)
Result-cases (err e) = inr (e, refl)
