-- ===== src/Plans/Codes.antt =====
-- The codes of plans (apps/server/src/balloon_crumbs_server/service.py, `_generate_plan_code` and
-- the loop of `create_plan`).
use balloon_crumbs.Prelude.{
  subst, ◌≡◌, refl, sym, ◌∙◌, inl, inr, ℕ, zero, suc, ◌+◌, ◌%◌, ◌<◌, String, Bool, true, false,
  List, [], ◌∷◌, ◌++◌, arith, Bool-cases, is_some, all, length-append,
}
use balloon_crumbs.Result.{Fault, Result, ok, err, ok-injective, Result-cases}
use balloon_crumbs.Models.{RidePlan}
use balloon_crumbs.Text.{codes, repeated}
use balloon_crumbs.Text.Parts.{append}
use balloon_crumbs.Env.{Env}
use balloon_crumbs.Crew.Owners.{all-append}
use balloon_crumbs.Plans.{
  PlanEntropy, PlanUpload, letter_from, plan_code_alphabet, is_plan_letter, is_plan_code,
  join_letters, generate_plan_code, find_plan, new_plan, code_at, sealed_at, allocate_plan,
}

codes-append : (s t : String) → codes (append s t) ≡ codes s ++ codes t
codes-append String.[] t = refl
codes-append (String.◌∷◌ c s) t = rw (codes-append s t) refl

abbrev is_letter : String → Bool
is_letter s = repeated is_plan_letter 1 (codes s)

letter_from-is_letter :
    (xs : List String) (n : ℕ) → all is_letter xs ≡ true → is_letter (letter_from xs n) ≡ true
unfolding is_plan_letter
letter_from-is_letter [] n h = refl
letter_from-is_letter (x ∷ xs) zero h = ground (arith, h)
letter_from-is_letter (x ∷ xs) (suc n) h = letter_from-is_letter xs n (ground (arith, h))

alphabet-letters : all is_letter plan_code_alphabet ≡ true
unfolding is_plan_letter
alphabet-letters = refl

repeated-append :
    (p : ℕ → Bool) (m n : ℕ) (xs ys : List ℕ)
    → repeated p m xs ≡ true
    → repeated p n ys ≡ true
    → repeated p (m + n) (xs ++ ys) ≡ true
repeated-append p m n xs ys h k = ground (arith, length-append xs ys, all-append p xs ys)

join_letters-repeated :
    (n : ℕ) (draw : ℕ → ℕ) → repeated is_plan_letter n (codes (join_letters n draw)) ≡ true
join_letters-repeated zero draw = refl
join_letters-repeated (suc n) draw =
    let same : 1 + n ≡ suc n = omega arith in
    subst (λ m. repeated is_plan_letter m (codes (join_letters (suc n) draw)) ≡ true) same
      (rw (codes-append (letter_from plan_code_alphabet (draw n % 32)) (join_letters n draw)) (
        repeated-append is_plan_letter 1 n (codes (letter_from plan_code_alphabet (draw n % 32)))
          (codes (join_letters n draw))
          (letter_from-is_letter plan_code_alphabet (draw n % 32) alphabet-letters)
          (join_letters-repeated n draw)))

-- Every code that is generated has the form that `get_plan` asks for, whatever is drawn.
pub generate_plan_code-is_plan_code : (draw : ℕ → ℕ) → is_plan_code (generate_plan_code draw) ≡ true
unfolding is_plan_code generate_plan_code
generate_plan_code-is_plan_code draw = join_letters-repeated 8 draw

pub err≢ok : {A : Type 0} {e : Fault} {a : A} → ¬ (◌≡◌ {A = Result A} (err e) (ok a))
err≢ok h = cc

pub true≢false : ¬ (true ≡ false)
true≢false h = cc

module _ (env : Env) (entropy : PlanEntropy) (u : PlanUpload) (now : ℕ)
    (plans : List RidePlan) where
  -- what the loop adds: the plan under a code that was free, sealed with the round's nonce
  abbrev pub IsAllocated : String → List RidePlan → Type 0
  IsAllocated code plans' =
      (i : ℕ) × (ciphertext : List ℕ) × (code ≡ code_at env entropy i)
      × (sealed_at env entropy u i ≡ ok ciphertext)
      × (is_some (find_plan code plans) ≡ false)
      × (plans' ≡ plans ++ new_plan env u code ciphertext now ∷ [])

  allocate_plan-unsealed :
      (rounds i : ℕ) (e : Fault)
      → sealed_at env entropy u i ≡ err e
      → allocate_plan env (suc rounds) i entropy u now plans ≡ err e
  unfolding allocate_plan
  allocate_plan-unsealed rounds i e unsealed = rw unsealed refl

  allocate_plan-taken :
      (rounds i : ℕ) (ciphertext : List ℕ)
      → sealed_at env entropy u i ≡ ok ciphertext
      → is_some (find_plan (code_at env entropy i) plans) ≡ true
      → allocate_plan env (suc rounds) i entropy u now plans
        ≡ allocate_plan env rounds (i + 1) entropy u now plans
  unfolding allocate_plan
  allocate_plan-taken rounds i ciphertext sealed taken = rw (sealed, taken) refl

  allocate_plan-free :
      (rounds i : ℕ) (ciphertext : List ℕ)
      → sealed_at env entropy u i ≡ ok ciphertext
      → is_some (find_plan (code_at env entropy i) plans) ≡ false
      → allocate_plan env (suc rounds) i entropy u now plans
        ≡ ok (
          code_at env entropy i,
          plans ++ new_plan env u (code_at env entropy i) ciphertext now ∷ [],
        )
  unfolding allocate_plan
  allocate_plan-free rounds i ciphertext sealed free = rw (sealed, free) refl

  pub allocate_plan-ok :
      (rounds i : ℕ) (code : String) (plans' : List RidePlan)
      → allocate_plan env rounds i entropy u now plans ≡ ok (code, plans')
      → IsAllocated code plans'
  unfolding allocate_plan
  allocate_plan-ok zero i code plans' h = cc
  allocate_plan-ok (suc rounds) i code plans' h = elim (Result-cases (sealed_at env entropy u i)) [
    | inr (e, unsealed) ↦ absurd (err≢ok (sym (allocate_plan-unsealed rounds i e unsealed) ∙ h))
    | inl (ciphertext, sealed) ↦
        elim (Bool-cases (is_some (find_plan (code_at env entropy i) plans))) [
          | inl taken ↦
              allocate_plan-ok rounds (i + 1) code plans'
                (sym (allocate_plan-taken rounds i ciphertext sealed taken) ∙ h)
          | inr free ↦
              subst (λ p. IsAllocated p.0 p.1)
                (ok-injective (sym (allocate_plan-free rounds i ciphertext sealed free) ∙ h))
                (i, ciphertext, refl, sealed, free, refl)
        ]
  ]

  later :
      (rounds i k : ℕ) (ciphertext : List ℕ)
      → sealed_at env entropy u i ≡ ok ciphertext
      → is_some (find_plan (code_at env entropy i) plans) ≡ true
      → k < suc rounds
      → is_some (find_plan (code_at env entropy (i + k)) plans) ≡ false
      → ((m : ℕ)
          → m < rounds
          → is_some (find_plan (code_at env entropy (i + 1 + m)) plans) ≡ false
          → (r : String × List RidePlan) × (allocate_plan env rounds (i + 1) entropy u now plans
              ≡ ok r))
      → (r : String × List RidePlan) × (allocate_plan env (suc rounds) i entropy u now plans ≡ ok r)
  later rounds i zero ciphertext sealed taken below free next = absurd (
      true≢false (
        sym taken
        ∙ subst (λ j. is_some (find_plan (code_at env entropy j) plans) ≡ false) (omega arith)
            free))
  later rounds i (suc m) ciphertext sealed taken below free next =
      let (r, done) = next m (omega (arith, below)) (
        subst (λ j. is_some (find_plan (code_at env entropy j) plans) ≡ false) (omega arith)
          free) in
      (r, allocate_plan-taken rounds i ciphertext sealed taken ∙ done)

  -- A free code among the rounds is found.
  pub allocate_plan-finds :
      (rounds i k : ℕ)
      → ((j : ℕ) → (c : List ℕ) × (sealed_at env entropy u j ≡ ok c))
      → k < rounds
      → is_some (find_plan (code_at env entropy (i + k)) plans) ≡ false
      → (r : String × List RidePlan) × (allocate_plan env rounds i entropy u now plans ≡ ok r)
  allocate_plan-finds zero i k seals below free = absurd (omega (arith, below))
  allocate_plan-finds (suc rounds) i k seals below free =
      let (ciphertext, sealed) = seals i in
      elim (Bool-cases (is_some (find_plan (code_at env entropy i) plans))) [
        | inr here ↦ (_, allocate_plan-free rounds i ciphertext sealed here)
        | inl taken ↦
            later rounds i k ciphertext sealed taken below free
              (λ m below' free'. allocate_plan-finds rounds (i + 1) m seals below' free')
      ]
