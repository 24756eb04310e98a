-- ===== src/Crypto/Sealed.antt =====
-- Sealed documents (apps/server/src/balloon_crumbs_server/crypto.py, `DataCipher`).
use balloon_crumbs.Text.{utf8}
use balloon_crumbs.Json.{Value}
use balloon_crumbs.Crypto.{encrypt_json, decrypt_json}
use balloon_crumbs.Env.{Env}
use balloon_crumbs.Prelude.{
  ◌≡◌, refl, sym, ap, ◌∙◌, inl, inr, ℕ, ◌+◌, ◌<◌, String, false, some, List, [], ◌∷◌, ◌++◌, arith,
  ltb, Option-cases, length, take, drop, length-append,
}
use balloon_crumbs.Result.{ok}

-- What the cipher relies on. AES-GCM opens what it sealed under the same key, nonce and associated
-- data, and adds a tag of 16 bytes. JSON texts are read back as they were written, and have at
-- least one byte.
pub record SealLaws (env : Env) : Type 0 where
  pub opens :
      (key nonce plaintext aad : List ℕ)
      → env.unseal key nonce (env.seal key nonce plaintext aad) aad ≡ some plaintext
  pub tagged :
      (key nonce plaintext aad : List ℕ)
      → length (env.seal key nonce plaintext aad) ≡ length plaintext + 16
  pub reads : (v : Value) (s : String) → env.dumps v ≡ some s → env.loads (utf8 s) ≡ some v
  pub written : (v : Value) (s : String) → env.dumps v ≡ some s → 0 < length (utf8 s)

take-length-append : (xs ys : List ℕ) → take (length xs) (xs ++ ys) ≡ xs
take-length-append [] ys = refl
take-length-append (x ∷ xs) ys = rw (take-length-append xs ys)

drop-length-append : (xs ys : List ℕ) → drop (length xs) (xs ++ ys) ≡ ys
drop-length-append [] ys = refl
drop-length-append (x ∷ xs) ys = drop-length-append xs ys

module _ (env : Env) (laws : SealLaws env) where
  decrypt-seal :
      (nonce aad : List ℕ) (v : Value) (s : String)
      → length nonce ≡ 12
      → env.dumps v ≡ some s
      → decrypt_json env (nonce ++ env.seal env.data_encryption_key nonce (utf8 s) aad) aad ≡ ok v
  unfolding decrypt_json
  decrypt-seal nonce aad v s h e =
      let sealed = env.seal env.data_encryption_key nonce (utf8 s) aad in
      let front = ap (λ n. take n (nonce ++ sealed)) (sym h) ∙ take-length-append nonce sealed in
      let back = ap (λ n. drop n (nonce ++ sealed)) (sym h) ∙ drop-length-append nonce sealed in
      let long : ltb (length (nonce ++ sealed)) 29 ≡ false = ground (
        arith,
        length-append nonce sealed,
        laws.tagged env.data_encryption_key nonce (utf8 s) aad,
        laws.written v s e,
      ) in
      rw
        (long, front, back, laws.opens env.data_encryption_key nonce (utf8 s) aad, laws.reads v s e)

  -- A document that was sealed with a nonce of 12 bytes opens to itself under the same associated
  -- data, if the laws of the cipher hold.
  pub decrypt-encrypt :
      (nonce aad : List ℕ) (v : Value) {sealed : List ℕ}
      → length nonce ≡ 12
      → encrypt_json env nonce v aad ≡ ok sealed
      → decrypt_json env sealed aad ≡ ok v
  unfolding encrypt_json
  decrypt-encrypt nonce aad v h e = elim (Option-cases (env.dumps v)) [
    | inl unwritten ↦ absurd (ground (arith, unwritten))
    | inr (s, written) ↦ ground (arith, decrypt-seal nonce aad v s h written)
  ]
