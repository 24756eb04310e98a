-- ===== src/JoinCode/Resolve.antt =====
-- Registering and resolving a ride code
-- (apps/server/src/balloon_crumbs_server/service.py, `register_join_code`, `resolve_join_code`).
use balloon_crumbs.Prelude.{
  subst, ◌≡◌, refl, sym, ◌∙◌, ◌≢◌, inl, inr, ℕ, ◌<◌, String, true, false, ◌&&◌, Option, none, some,
  List, [], ◌∷◌, ◌++◌, arith, str_eq, eq_iff, ltb, leb, Bool-cases, Option-cases, length, keep, all,
  eq_refl,
}
use balloon_crumbs.Result.{Fault, ok, err, Result-cases}
use balloon_crumbs.Models.{Ride, RideJoinCode, Db}
use balloon_crumbs.Text.{codes, compare_digest}
use balloon_crumbs.Env.{Env, hours, seconds}
use balloon_crumbs.Crypto.{compare_text, encrypt_json}
use balloon_crumbs.Crypto.Sealed.{SealLaws, decrypt-encrypt}
use balloon_crumbs.Sync.Handler.{get_or_claim_ride}
use balloon_crumbs.JoinCode.Records.{
  Registration, Resolved, validate_join_code, check_registration, open_record, read_record,
  check_resolve_token, has_length, accepts_key, is_public_key, secret_of, join_code_aad,
  validate_join_credential,
}
use balloon_crumbs.JoinCode.Handler.{
  find_code, put_code, expire_codes, set_authority, new_code, save_code, register_join_code,
  read_code, resolve_join_code,
}

abbrev IsAscii : String → Type 0
IsAscii s = all (λ c. ltb c 128) (codes s) ≡ true

compare_text-same : (s : String) → IsAscii s → compare_text s s ≡ ok true
unfolding compare_text
compare_text-same s h = ground (arith, h, eq_refl s)

-- what a registration resolves to
abbrev pub resolved_of : Registration → Resolved
resolved_of r = record {
  ride_id = r.ride_id;
  ride_code = r.ride_code;
  invite_secret = r.invite_secret;
  resolve_token = r.resolve_token;
  authority_root_public_key = r.authority_root_public_key;
}

read_record-secret :
    (r : Registration)
    → has_length 512 r.invite_secret ≡ true
    → has_length 128 r.resolve_token ≡ true
    → accepts_key r.authority_root_public_key ≡ true
    → read_record r.ride_id r.ride_code (secret_of r) ≡ ok (resolved_of r)
unfolding read_record secret_of
read_record-secret r a b c = elim (Option-cases r.authority_root_public_key) [
  | inl n ↦ rw (n, a, b) refl
  | inr (key, k) ↦ let c' : is_public_key key ≡ true = ground (arith, c, k) in rw (k, a, b, c') refl
]

module _ (env : Env) where
  check_registration-ok :
      (nonce : List ℕ) (r : Registration) (hash c : List ℕ)
      → check_registration env nonce r ≡ ok (hash, c)
      → (has_length 512 r.invite_secret ≡ true)
        × (has_length 128 r.resolve_token ≡ true)
        × (accepts_key r.authority_root_public_key ≡ true)
        × (encrypt_json env nonce (secret_of r) (join_code_aad r.ride_code) ≡ ok c)
        × (validate_join_code env r.ride_code ≡ ok tt)
  unfolding check_registration validate_join_credential
  check_registration-ok nonce r hash c e = ground arith

  -- the row that a registration leaves
  abbrev Registers : Registration → List ℕ → ℕ → List RideJoinCode → Type 0
  Registers r c now codes =
      (row : RideJoinCode) × (find_code r.ride_code codes ≡ some row)
      × (row.ride_id ≡ r.ride_id)
      × (row.code ≡ r.ride_code)
      × (row.secret_ciphertext ≡ c)
      × (now < row.expires_at)

find_code-append :
    (row : RideJoinCode) (rows : List RideJoinCode)
    → find_code row.code rows ≡ none
    → find_code row.code (rows ++ row ∷ []) ≡ some row
find_code-append row [] h = ground (arith, eq_refl row.code)
find_code-append row (x ∷ rows) h = ground (arith, find_code-append row rows)

find_code-put_code :
    (row old : RideJoinCode) (rows : List RideJoinCode)
    → find_code row.code rows ≡ some old
    → find_code row.code (put_code row rows) ≡ some row
unfolding put_code
find_code-put_code row old [] h = cc
find_code-put_code row old (x ∷ rows) h =
    ground (arith, find_code-put_code row old rows, eq_refl row.code)

find_code-live :
    (code : String) (now : ℕ) (rows : List RideJoinCode) (row : RideJoinCode)
    → find_code code (keep (λ r. ltb now r.expires_at) rows) ≡ some row
    → (now < row.expires_at) × (row.code ≡ code)
find_code-live code now [] row h = cc
find_code-live code now (x ∷ rows) row h =
    ground (arith, find_code-live code now rows row, eq_iff x.code code)

module _ (env : Env) where
  save_code-Registers :
      (r : Registration) (hash c : List ℕ) (now : ℕ) (db : Db)
      → 0 < env.settings.ride_retention_hours
      → ((row : RideJoinCode)
          → find_code r.ride_code db.join_codes ≡ some row
          → (now < row.expires_at) × (row.code ≡ r.ride_code))
      → (save_code env r hash c now db).0 ≡ ok tt
      → Registers env r c now (save_code env r hash c now db).1.join_codes
  unfolding save_code new_code hours seconds
  save_code-Registers r hash c now db h live e =
      elim (Option-cases (find_code r.ride_code db.join_codes)) [
        | inl fresh ↦
            let row = new_code env r hash c now in
            let same : (save_code env r hash c now db).1.join_codes ≡ db.join_codes ++ row ∷ [] =
              ground (arith, fresh) in
            rw same
              (row, find_code-append row db.join_codes fresh, refl, refl, refl, ground (arith, h))
        | inr (old, taken) ↦
            elim (Bool-cases (str_eq old.ride_id r.ride_id && compare_digest old.token_hash hash)) [
              | inr other ↦ absurd (ground (arith, taken, other))
              | inl own ↦
                  let row : RideJoinCode = record old { secret_ciphertext = c } in
                  let same : (save_code env r hash c now db).1.join_codes
                      ≡ put_code row db.join_codes =
                    ground (arith, taken, own) in
                  let (lives, named) = live old taken in
                  rw same (
                    row,
                    subst (λ k. find_code k (put_code row db.join_codes) ≡ some row) named
                        (find_code-put_code row old db.join_codes
                          (subst (λ k. find_code k db.join_codes ≡ some old) (sym named) taken)),
                    ground (arith, own, eq_iff old.ride_id r.ride_id),
                    named,
                    refl,
                    lives,
                  )
            ]
      ]

  set_authority-codes :
      (key : Option String) (ride : Ride) (db : Db)
      → (set_authority key ride db).1.join_codes ≡ db.join_codes
  unfolding set_authority
  set_authority-codes none ride db = refl
  set_authority-codes (some key) ride db = ground arith

  claim-codes :
      (id token : String) (now : ℕ) (db : Db)
      → (get_or_claim_ride env id token now db).1.join_codes ≡ db.join_codes
  unfolding get_or_claim_ride
  claim-codes id token now db = ground arith

  register-Registers :
      (nonce : List ℕ) (r : Registration) (now : ℕ) (db : Db) (hash c : List ℕ)
      → 0 < env.settings.ride_retention_hours
      → check_registration env nonce r ≡ ok (hash, c)
      → (register_join_code env nonce r now db).0 ≡ ok tt
      → Registers env r c now (register_join_code env nonce r now db).1.join_codes
  unfolding register_join_code expire_codes
  register-Registers nonce r now db hash c h checked e =
      let live = expire_codes now db in
      let mid = (get_or_claim_ride env r.ride_id r.bearer_token now live).1 in
      elim (Result-cases (get_or_claim_ride env r.ride_id r.bearer_token now live).0) [
        | inr (f, failed) ↦ absurd (ground (arith, checked, failed))
        | inl (ride, claimed) ↦ elim (Bool-cases (compare_digest ride.token_hash hash)) [
          | inr other ↦ absurd (ground (arith, checked, claimed, other))
          | inl own ↦
              let (set, after) = set_authority r.authority_root_public_key ride mid in
              let same : after.join_codes ≡ live.join_codes =
                set_authority-codes r.authority_root_public_key ride mid
                ∙ claim-codes r.ride_id r.bearer_token now live in
              elim (Result-cases set) [
                | inr (f, failed) ↦ absurd (ground (arith, checked, claimed, own, failed))
                | inl (_, done) ↦ elim (Result-cases (save_code env r hash c now after).0) [
                  | inr (f, failed) ↦ absurd (ground (arith, checked, claimed, own, done, failed))
                  | inl (_, saved) ↦
                      rw (checked, claimed, own, done, saved)
                        (save_code-Registers r hash c now after h
                          (λ row found.
                            find_code-live r.ride_code now db.join_codes row (rw same at found))
                          saved)
                ]
              ]
        ]
      ]

register-checked :
    (env : Env) (nonce : List ℕ) (r : Registration) (now : ℕ) (db : Db) (f : Fault)
    → check_registration env nonce r ≡ err f
    → (register_join_code env nonce r now db).0 ≢ ok tt
unfolding register_join_code
register-checked env nonce r now db f refused = ground (arith, refused)

resolve-open :
    (env : Env) (code : String) (token : Option String) (now : ℕ) (db : Db) (row : RideJoinCode)
    (resolved : Resolved)
    → validate_join_code env code ≡ ok tt
    → find_code code db.join_codes ≡ some row
    → leb row.expires_at now ≡ false
    → open_record env code token row ≡ ok resolved
    → (resolve_join_code env code token now db).0 ≡ ok resolved
unfolding resolve_join_code read_code
resolve-open env code token now db row resolved valid found lives opened =
    ground (arith, valid, found, lives, opened)

module _ (env : Env) (laws : SealLaws env) where
  open_record-sealed :
      (nonce : List ℕ) (r : Registration) (hash c : List ℕ) (row : RideJoinCode)
      → length nonce ≡ 12
      → IsAscii r.resolve_token
      → check_registration env nonce r ≡ ok (hash, c)
      → row.ride_id ≡ r.ride_id
      → row.code ≡ r.ride_code
      → row.secret_ciphertext ≡ c
      → open_record env r.ride_code (some r.resolve_token) row ≡ ok (resolved_of r)
  unfolding open_record check_resolve_token
  open_record-sealed nonce r hash c row h plain checked ride code secret =
      let (a, b, k, sealed, _) = check_registration-ok env nonce r hash c checked in
      let opens =
        decrypt-encrypt env laws nonce (join_code_aad r.ride_code) (secret_of r) h sealed in
      rw
        (
          secret,
          ride,
          code,
          opens,
          read_record-secret r a b k,
          compare_text-same r.resolve_token plain,
        )
        refl

  -- A code that has been registered resolves, for who holds the resolve token, to the ride, the
  -- secret, the token and the key that were registered, if the laws of the cipher hold, rides
  -- are kept for some time at all, the token is ASCII and the nonce has 12 bytes.
  pub resolve_join_code-registered :
      (nonce : List ℕ) (r : Registration) (now : ℕ) (db : Db)
      → 0 < env.settings.ride_retention_hours
      → length nonce ≡ 12
      → IsAscii r.resolve_token
      → (register_join_code env nonce r now db).0 ≡ ok tt
      → (resolve_join_code env r.ride_code
          (some r.resolve_token)
          now
          (register_join_code env nonce r now db).1).0
        ≡ ok (resolved_of r)
  resolve_join_code-registered nonce r now db kept h plain e =
      let after = (register_join_code env nonce r now db).1 in
      elim (Result-cases (check_registration env nonce r)) [
        | inr (f, refused) ↦ absurd (register-checked env nonce r now db f refused e)
        | inl ((hash, c), checked) ↦
            let (_, _, _, _, valid) = check_registration-ok env nonce r hash c checked in
            let (row, found, ride, code, secret, live) =
              register-Registers env nonce r now db hash c kept checked e in
            let opened = open_record-sealed nonce r hash c row h plain checked ride code secret in
            let lives : leb row.expires_at now ≡ false = ground (arith, live) in
            resolve-open env r.ride_code (some r.resolve_token) now after row (resolved_of r) valid
              found lives opened
      ]
