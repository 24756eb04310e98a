-- ===== src/Plans/Lookup.antt =====
-- A plan from `create_plan` to `get_plan` (apps/server/src/balloon_crumbs_server/service.py).
use balloon_crumbs.Prelude.{
  subst, ◌≡◌, refl, sym, ap, inl, inr, ℕ, ◌+◌, ◌<◌, String, true, false, some, List, [], ◌∷◌, ◌++◌,
  arith, str_eq, eq_iff, leb, Option-cases, is_some, length,
}
use balloon_crumbs.Result.{Result, ok, err, ok-injective}
use balloon_crumbs.Models.{RidePlan, Db}
use balloon_crumbs.Effect.Inversion.{continue-invert, transaction-ok}
use balloon_crumbs.Env.{Env}
use balloon_crumbs.Crypto.{encrypt_json, decrypt_json}
use balloon_crumbs.Crypto.Sealed.{SealLaws, decrypt-encrypt}
use balloon_crumbs.Plans.{
  PlanEntropy, PlanUpload, PlanCreated, PlanView, is_plan_code, find_plan, expire_plans, plan_value,
  plan_aad, read_forecast, read_plan_value, check_plan, plan_expiry, new_plan, code_at, sealed_at,
  allocate_plan, save_plan, read_plan, plan_view, finish_plan, read_row,
}
use balloon_crumbs.Plans.Handler.{create_plan, get_plan}
use balloon_crumbs.Plans.Codes.{
  err≢ok, generate_plan_code-is_plan_code, IsAllocated, allocate_plan-ok, allocate_plan-finds,
}

-- The value that is sealed reads back as the route and the forecast.
read_plan_value-plan_value :
    (u : PlanUpload) → read_plan_value (plan_value u) ≡ ok (u.gpx, u.forecast_plan)
unfolding read_plan_value plan_value read_forecast
read_plan_value-plan_value u = elim (Option-cases u.forecast_plan) [
  | inl bare ↦ rw bare refl
  | inr (plan, with) ↦ rw with refl
]

find_plan-added :
    (code : String) (row : RidePlan) (plans : List RidePlan)
    → is_some (find_plan code plans) ≡ false
    → str_eq row.code code ≡ true
    → find_plan code (plans ++ row ∷ []) ≡ some row
find_plan-added code row [] h k = rw k refl
find_plan-added code row (p ∷ plans) h k = ground (arith, find_plan-added code row plans)

-- what `get_plan` answers for a plan that was uploaded
abbrev pub view_of : Env → PlanUpload → String → ℕ → PlanView
view_of env u code now = record {
  code = code;
  name = u.name;
  gpx = u.gpx;
  forecast_plan = u.forecast_plan;
  created_at = env.isoformat now;
  expires_at = env.isoformat (plan_expiry env now);
}

pair_eq : {A B : Type 0} {a a' : A} {b b' : B} → a ≡ a' → b ≡ b' → ◌≡◌ {A = A × B} (a, b) (a', b')
pair_eq p q = cc

module _ (env : Env) (entropy : PlanEntropy) (u : PlanUpload) where
  finish_plan-ok :
      (r : Result (String × List RidePlan)) (now : ℕ) (db db' : Db) (created : PlanCreated)
      → finish_plan env r now db ≡ (ok created, db')
      → r ≡ ok (created.code, db'.plans)
  unfolding finish_plan
  finish_plan-ok (err e) now db db' created h = absurd (err≢ok (ap (λ p. p.0) h))
  finish_plan-ok (ok (code, plans)) now db db' created h =
      let made = ok-injective (ap (λ p. p.0) h) in
      let stored = ap (λ p. p.1) h in
      ap ok (pair_eq (ap (λ c. c.code) made) (ap (λ d. d.plans) stored))

  save_plan-ok :
      (now : ℕ) (db db' : Db) (created : PlanCreated)
      → save_plan env entropy u now db ≡ (ok created, db')
      → IsAllocated env entropy u now (expire_plans now db.plans) created.code db'.plans
  unfolding save_plan
  save_plan-ok now db db' created h =
      allocate_plan-ok env entropy u now (expire_plans now db.plans) 8 0 created.code db'.plans (
        finish_plan-ok (allocate_plan env 8 0 entropy u now (expire_plans now db.plans)) now db db'
          created h)

  new_plan-code :
      (now : ℕ) (code : String) (ciphertext : List ℕ)
      → str_eq (new_plan env u code ciphertext now).code code ≡ true
  unfolding new_plan
  new_plan-code now code ciphertext = (eq_iff code code).1 refl

  still_live :
      (now later : ℕ) (code : String) (ciphertext : List ℕ)
      → later < plan_expiry env now
      → leb (new_plan env u code ciphertext now).expires_at later ≡ false
  unfolding new_plan
  still_live now later code ciphertext live = ground (arith, live)

  module _ (laws : SealLaws env) (nonces : (i : ℕ) → length (entropy.nonce i) ≡ 12) where
    plan_view-new :
        (now : ℕ) (code : String) (ciphertext : List ℕ) (i : ℕ)
        → code ≡ code_at env entropy i
        → sealed_at env entropy u i ≡ ok ciphertext
        → plan_view env (new_plan env u code ciphertext now) ≡ ok (view_of env u code now)
    unfolding plan_view new_plan sealed_at
    plan_view-new now code ciphertext i same sealed =
        let opened : decrypt_json env ciphertext (plan_aad code) ≡ ok (plan_value u) =
          subst (λ c. decrypt_json env ciphertext (plan_aad c) ≡ ok (plan_value u)) (sym same)
            (decrypt-encrypt env laws (entropy.nonce i) (plan_aad (code_at env entropy i))
              (plan_value u) (nonces i) sealed) in
        rw (opened, read_plan_value-plan_value u) refl

    read_plan-new :
        (now later : ℕ) (code : String) (ciphertext : List ℕ) (i : ℕ) (db : Db)
        → later < plan_expiry env now
        → code ≡ code_at env entropy i
        → sealed_at env entropy u i ≡ ok ciphertext
        → find_plan code db.plans ≡ some (new_plan env u code ciphertext now)
        → read_plan env code later db ≡ (ok (view_of env u code now), db)
    unfolding read_plan read_row
    read_plan-new now later code ciphertext i db live same sealed found =
        let fresh : leb (new_plan env u code ciphertext now).expires_at later ≡ false =
          still_live now later code ciphertext live in
        rw (found, fresh, plan_view-new now code ciphertext i same sealed) refl

    -- A plan that has been created is answered, as it was uploaded, until it expires, if the laws
    -- of the cipher hold and the nonces have 12 bytes.
    pub get_plan-created :
        (now later : ℕ) (db db' : Db) (created : PlanCreated)
        → create_plan env entropy u now db ≡ (ok created, db')
        → later < plan_expiry env now
        → get_plan env created.code later db' ≡ (ok (view_of env u created.code now), db')
    unfolding create_plan get_plan
    get_plan-created now later db db' created h live =
        continue-invert (check_plan env u) _ db db' created h (λ _ _ h1.
          let (i, ciphertext, same, sealed, free, added) =
            save_plan-ok now db db' created
              (transaction-ok (save_plan env entropy u now) db db' created h1) in
          let row = new_plan env u created.code ciphertext now in
          let found : find_plan created.code db'.plans ≡ some row =
            subst (λ ps. find_plan created.code ps ≡ some row) (sym added)
              (find_plan-added created.code row (expire_plans now db.plans) free
                (new_plan-code now created.code ciphertext)) in
          let formed : is_plan_code created.code ≡ true =
            subst (λ c. is_plan_code c ≡ true) (sym same)
              (generate_plan_code-is_plan_code (entropy.draw i)) in
          rw (formed, read_plan-new now later created.code ciphertext i db' live same sealed found)
            refl)

  sealed_at-ok :
      (j : ℕ) (s : String)
      → env.dumps (plan_value u) ≡ some s
      → (c : List ℕ) × (sealed_at env entropy u j ≡ ok c)
  unfolding sealed_at encrypt_json
  sealed_at-ok j s written = rw written (_, refl)

  -- A valid upload is created if one of the eight codes that are drawn is free once the expired
  -- plans are deleted, and its document can be written.
  pub create_plan-succeeds :
      (now k : ℕ) (db : Db) (s : String)
      → check_plan env u ≡ ok tt
      → env.dumps (plan_value u) ≡ some s
      → k < 8
      → is_some (find_plan (code_at env entropy k) (expire_plans now db.plans)) ≡ false
      → (created : PlanCreated) × (db' : Db) × (create_plan env entropy u now db
          ≡ (ok created, db'))
  unfolding create_plan save_plan finish_plan
  create_plan-succeeds now k db s checked written below free =
      let zero_add : k ≡ 0 + k = omega arith in
      let (r, found) =
        allocate_plan-finds env entropy u now (expire_plans now db.plans) 8 0 k
          (λ j. sealed_at-ok j s written) below
          (subst
            (λ j. is_some (find_plan (code_at env entropy j) (expire_plans now db.plans)) ≡ false)
            zero_add free) in
      rw (checked, found) (_, _, refl)
