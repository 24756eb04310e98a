-- ===== src/Plans.antt =====
-- Shared route plans: `create_plan` and `get_plan` of
-- apps/server/src/balloon_crumbs_server/service.py, each one transaction.
pub mod Handler
pub mod Codes
pub mod Lookup
use balloon_crumbs.Prelude.{
  subst, ◌≡◌, refl, sym, ap, ◌∙◌, ◌≢◌, ◌↔◌, ◌⊎◌, inl, inr, ℕ, zero, suc, ◌+◌, ◌-◌, ◌*◌, ◌/◌, ◌%◌,
  ◌^◌, ◌≤◌, ◌<◌, min, max, String, Bool, true, false, not, ◌&&◌, ◌||◌, Option, none, some, List, [],
  ◌∷◌, ◌++◌, map, arith, str_eq, eq_iff, ltb, leb, ◌==◌, if◌then◌else◌, ==_iff, ltb→lt, leb→le,
  Bool-cases, Option-cases, is_some, length, take, drop, keep, find, all, any, sum_of, last_or,
  length-append, sum_of-append, sum_of-keep, length-keep-le, keep-append, count_of, contains,
}
use balloon_crumbs.Result.{
  Fault, relay_service_error, value_error, type_error, overflow_error, invalid_tag, integrity_error,
  Result, ok, err, ◌>>=◌, ◌>>◌, reject, or_raise, except_value_error, >>=-eq-ok, >>=-invert,
  ok-injective, Result-cases,
}
use balloon_crumbs.Json.{
  Value, null, boolean, natural, negative, double, text, array, object, Items, nil, cons, Fields,
  end, field, is_finite, get, keys, length_items, as_text, as_object, is_boolean, is_null, is_text,
  in_texts, equals_one, equals_two, in_versions,
}
use balloon_crumbs.Models.{
  Ride, RideJoinCode, RidePlan, StoredEvent, RideMember, PreStartPosition, IdempotencyReplay,
  ObserverGrant, CrewRoom, CrewRoomDevice, Db, empty, is_expired, is_live, find_ride, put_ride,
}
use balloon_crumbs.Text.{codes, text_len, utf8, repeated}
use balloon_crumbs.Text.Parts.{append, format}
use balloon_crumbs.Env.{Env, days}
use balloon_crumbs.Crypto.{encrypt_json, decrypt_json}
use balloon_crumbs.Gpx.{GpxValidity, gpx_validation_error, point_count, validate_gpx}

-- `PLAN_CODE_ALPHABET`, as the texts of its characters
abbrev pub plan_code_alphabet : List String
plan_code_alphabet =
    "2" ∷ "3" ∷ "4" ∷ "5" ∷ "6" ∷ "7" ∷ "8" ∷ "9" ∷ "A" ∷ "B" ∷ "C" ∷ "D" ∷ "E" ∷ "F" ∷ "G" ∷ "H"
    ∷ "J" ∷ "K" ∷ "L" ∷ "M" ∷ "N" ∷ "P" ∷ "Q" ∷ "R" ∷ "S" ∷ "T" ∷ "U" ∷ "V" ∷ "W" ∷ "X" ∷ "Y" ∷ "Z"
    ∷ []

-- `[23456789ABCDEFGHJKLMNPQRSTUVWXYZ]`
unfoldable pub is_plan_letter : ℕ → Bool
is_plan_letter c =
    (leb b'2' c && leb c b'9') || (leb b'A' c && leb c b'Z' && not (c == b'I') && not (c == b'O'))

-- `PLAN_CODE.fullmatch`
unfoldable pub is_plan_code : String → Bool
unfolding is_plan_letter
is_plan_code s = repeated is_plan_letter 8 (codes s)

-- `secrets.choice(PLAN_CODE_ALPHABET)`, for the index that is drawn
abbrev pub letter_from : List String → ℕ → String
letter_from [] n = "Z"
letter_from (x ∷ xs) zero = x
letter_from (x ∷ xs) (suc n) = letter_from xs n

abbrev pub join_letters : ℕ → (ℕ → ℕ) → String
join_letters zero draw = ""
join_letters (suc n) draw =
    append (letter_from plan_code_alphabet (draw n % 32)) (join_letters n draw)

-- a code of `PLAN_CODE_LENGTH` letters; `draw` is what the random source gives
unfoldable pub generate_plan_code : (ℕ → ℕ) → String
generate_plan_code draw = join_letters 8 draw

unfoldable pub plan_aad : String → List ℕ
plan_aad code = utf8 (format ("plan:" ∷ code ∷ []))

-- what `secrets.choice` and `os.urandom` give to each round of the loop
pub record PlanEntropy : Type 0 where
  pub draw : ℕ → ℕ → ℕ
  pub nonce : ℕ → List ℕ

pub record PlanUpload : Type 0 where
  pub name : Option String
  pub gpx : String
  pub forecast_plan : Option Fields
  pub forecast_plan_point_count : ℕ

pub record PlanCreated : Type 0 where
  pub code : String
  pub expires_at : String

pub record PlanView : Type 0 where
  pub code : String
  pub name : Option String
  pub gpx : String
  pub forecast_plan : Option Fields
  pub created_at : String
  pub expires_at : String

-- the document that is sealed
unfoldable pub plan_value : PlanUpload → Value
plan_value u = elim u.forecast_plan [
  | none ↦ text u.gpx
  | some plan ↦ object (field "gpx" (text u.gpx) (field "forecastPlan" (object plan) end))
]

-- `session.get(RidePlan, code)`
abbrev pub find_plan : String → List RidePlan → Option RidePlan
find_plan code plans = find (λ p. str_eq p.code code) plans

-- `delete(RidePlan).where(RidePlan.expires_at <= now)`
unfoldable pub expire_plans : ℕ → List RidePlan → List RidePlan
expire_plans now plans = keep (λ p. ltb now p.expires_at) plans

abbrev pub invalid_plan : Fault
invalid_plan = relay_service_error 500 "Plan record is invalid"

abbrev pub plan_not_found : Fault
plan_not_found = relay_service_error 404 "Plan not found"

abbrev pub is_text_value : Value → String → Bool
is_text_value (text s) t = str_eq s t
is_text_value _ t = false

-- `{"gpx": ..., "forecastPlan": ...}` or a text, and anything else is invalid
unfoldable pub read_forecast : Value → Result (Option Fields)
read_forecast null = ok none
read_forecast (object fs) = ok (some fs)
read_forecast _ = err invalid_plan

unfoldable pub read_plan_value : Value → Result (String × Option Fields)
unfolding read_forecast
read_plan_value (text s) = ok (s, none)
read_plan_value (object fs) = do
  gpx ← or_raise (as_text (get "gpx" fs)) invalid_plan
  forecast ← read_forecast (get "forecastPlan" fs)
  ok (gpx, forecast)
read_plan_value _ = err invalid_plan

module _ (env : Env) where
  unfoldable pub check_validity : GpxValidity → Result ℕ
  check_validity (gpx_validation_error words) = err (relay_service_error 400 words)
  check_validity (point_count n) = ok n

  unfoldable pub check_forecast : PlanUpload → Result (Unit {0})
  check_forecast u = elim u.forecast_plan [
    | none ↦ ok tt
    | some plan ↦
        reject (not (is_text_value (get "gpxFallback" plan) u.gpx))
          (relay_service_error 400 "Structured plan GPX fallback does not match")
        >> reject (ltb env.settings.maximum_plan_points u.forecast_plan_point_count)
            (relay_service_error 400 "Structured plan has too many geometry points")
  ]

  -- the checks before the transaction
  unfoldable pub check_plan : PlanUpload → Result (Unit {0})
  unfolding check_validity check_forecast
  check_plan u = do
    reject (elim u.name [ none ↦ false | some name ↦ ltb 200 (text_len name) ])
        (relay_service_error 400 "Plan name is too long")
    check_validity
        (validate_gpx env u.gpx env.settings.maximum_plan_bytes env.settings.maximum_plan_points)
    check_forecast u

  abbrev pub plan_expiry : ℕ → ℕ
  plan_expiry now = now + days env.settings.plan_retention_days

  unfoldable pub new_plan : PlanUpload → String → List ℕ → ℕ → RidePlan
  new_plan u code ciphertext now = record {
    code = code;
    name = u.name;
    gpx_ciphertext = ciphertext;
    created_at = now;
    expires_at = plan_expiry now;
  }

  -- the code and the ciphertext of a round
  abbrev pub code_at : PlanEntropy → ℕ → String
  code_at entropy i = generate_plan_code (entropy.draw i)

  unfoldable pub sealed_at : PlanEntropy → PlanUpload → ℕ → Result (List ℕ)
  sealed_at entropy u i =
      encrypt_json env (entropy.nonce i) (plan_value u) (plan_aad (code_at entropy i))

  -- one round: a code that is in use, which is the primary key of `ride_plans` (models.py), is the
  -- `IntegrityError` that goes on with the next
  abbrev pub place :
      Result (List ℕ)
      → Bool
      → (List ℕ → String × List RidePlan)
      → Result (String × List RidePlan)
      → Result (String × List RidePlan)
  place (err e) in_use add next = err e
  place (ok ciphertext) true add next = next
  place (ok ciphertext) false add next = ok (add ciphertext)

  -- the rounds of the loop that are left, from round `i` on
  unfoldable pub allocate_plan :
      ℕ → ℕ → PlanEntropy → PlanUpload → ℕ → List RidePlan → Result (String × List RidePlan)
  allocate_plan zero i entropy u now plans =
      err (relay_service_error 500 "Could not allocate a plan code")
  allocate_plan (suc rounds) i entropy u now plans =
      place (sealed_at entropy u i) (is_some (find_plan (code_at entropy i) plans))
        (λ ciphertext.
          (code_at entropy i, plans ++ new_plan u (code_at entropy i) ciphertext now ∷ []))
        (allocate_plan rounds (i + 1) entropy u now plans)

  -- the end of the transaction, with what the loop has allocated
  unfoldable pub finish_plan : Result (String × List RidePlan) → ℕ → Db → Result PlanCreated × Db
  finish_plan (err e) now db = (err e, record db { plans = expire_plans now db.plans })
  finish_plan (ok (code, plans)) now db = (
    ok (record { code = code; expires_at = env.isoformat (plan_expiry now) }),
    record db { plans = plans },
  )

  unfoldable pub save_plan : PlanEntropy → PlanUpload → ℕ → Db → Result PlanCreated × Db
  unfolding finish_plan
  save_plan entropy u now db =
      finish_plan (allocate_plan 8 0 entropy u now (expire_plans now db.plans)) now db

  -- what the row of a plan holds
  unfoldable pub plan_view : RidePlan → Result PlanView
  unfolding read_plan_value
  plan_view row = do
    value ←
        except_value_error (decrypt_json env row.gpx_ciphertext (plan_aad row.code)) invalid_plan
    found ← read_plan_value value
    ok (record {
      code = row.code;
      name = row.name;
      gpx = found.0;
      forecast_plan = found.1;
      created_at = env.isoformat row.created_at;
      expires_at = env.isoformat row.expires_at;
    })

  -- An expired row is deleted before the raise that rolls the deletion back.
  unfoldable pub read_row : Option RidePlan → ℕ → Db → Result PlanView × Db
  read_row none now db = (err plan_not_found, db)
  read_row (some row) now db =
      if leb row.expires_at now
      then (
        err plan_not_found,
        record db { plans = keep (λ p. not (str_eq p.code row.code)) db.plans },
      )
      else (plan_view row, db)

  unfoldable pub read_plan : String → ℕ → Db → Result PlanView × Db
  unfolding plan_view read_row
  read_plan code now db = read_row (find_plan code db.plans) now db
