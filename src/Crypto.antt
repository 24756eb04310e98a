-- ===== src/Crypto.antt =====
-- apps/server/src/balloon_crumbs_server/crypto.py: hashes of credentials, sealed JSON documents,
-- blind indexes and signed cursors.
pub mod Cursor
pub mod Sealed
use balloon_crumbs.Prelude.{
  ℕ, zero, suc, ◌+◌, ◌*◌, String, Bool, true, false, ◌&&◌, ◌||◌, not, Option, none, some, List, [],
  ◌∷◌, ◌++◌, ltb, leb, ◌==◌, length, all, take, drop, if◌then◌else◌, str_eq,
}
use balloon_crumbs.Result.{
  Result, ok, err, value_error, type_error, invalid_tag, ◌>>=◌, ◌>>◌, reject, or_raise,
}
use balloon_crumbs.Json.{Value}
use balloon_crumbs.Text.{codes, ascii, utf8}
use balloon_crumbs.Text.Parts.{format, split, rstrip, decimal}
use balloon_crumbs.Env.{Env}

-- `hmac.compare_digest` of two texts raises `TypeError` unless both are ASCII.
unfoldable pub compare_text : String → String → Result Bool
compare_text a b =
    if all (λ c. ltb c 128) (codes a) && all (λ c. ltb c 128) (codes b)
    then ok (str_eq a b)
    else err type_error

module _ (env : Env) where
  unfoldable pub base64url : List ℕ → String
  base64url value = rstrip b'=' (env.urlsafe_b64encode value)

  unfoldable pub token_hash : String → Result (List ℕ)
  token_hash token = do raw ← ascii token; ok (env.sha256 raw)

  unfoldable pub blind_index : String → String → List ℕ
  blind_index value namespace =
      env.hmac_sha256
        (env.sha256 (utf8 "balloon-crumbs-blind-index-v1" ++ 0 ∷ env.data_encryption_key))
        (utf8 (format (namespace ∷ "\n" ∷ value ∷ [])))

  -- The nonce is `os.urandom(12)`.
  unfoldable pub encrypt_json : List ℕ → Value → List ℕ → Result (List ℕ)
  encrypt_json nonce value associated_data = do
    plaintext ← or_raise (env.dumps value) value_error
    ok (nonce ++ env.seal env.data_encryption_key nonce (utf8 plaintext) associated_data)

  unfoldable pub decrypt_json : List ℕ → List ℕ → Result Value
  decrypt_json value associated_data = do
    reject (ltb (length value) 29) value_error
    plaintext ←
        or_raise
          (env.unseal env.data_encryption_key (take 12 value) (drop 12 value) associated_data)
          invalid_tag
    or_raise (env.loads plaintext) value_error

  unfoldable pub encode_cursor : String → ℕ → String
  encode_cursor ride_id sequence =
      let message = utf8 (format (ride_id ∷ "\n" ∷ decimal sequence ∷ [])) in
      let signature = base64url (env.hmac_sha256 env.cursor_signing_key message) in
      format ("rrc1" ∷ "." ∷ decimal sequence ∷ "." ∷ signature ∷ [])

  -- `int(text)`, for a text that `str.isdigit` has accepted
  digits_value : ℕ → List ℕ → Option ℕ
  digits_value n [] = some n
  digits_value n (c ∷ cs) = elim (env.decimal_value c) [
    | none ↦ none
    | some d ↦ digits_value (n * 10 + d) cs
  ]

  unfoldable pub int : String → Result ℕ
  unfolding digits_value
  int s = or_raise (digits_value 0 (codes s)) value_error

  -- `str.isdigit`
  unfoldable pub isdigit : String → Bool
  isdigit s = ltb 0 (length (codes s)) && all env.is_digit (codes s)

  -- The parts of a cursor, `parts` in `CursorCodec.decode`. A parsed sequence is a natural number,
  -- so the test `sequence < 0` never holds.
  unfoldable pub decode_parts : String → String → List String → Result ℕ
  decode_parts ride_id cursor (prefix ∷ number ∷ signature ∷ []) = do
    reject (not (str_eq prefix "rrc1") || not (isdigit number)) value_error
    sequence ← int number
    same ← compare_text cursor (encode_cursor ride_id sequence)
    reject (not same) value_error
    ok sequence
  decode_parts ride_id cursor _ = err value_error

  unfoldable pub decode_cursor : String → Option String → Result ℕ
  unfolding decode_parts
  decode_cursor ride_id none = ok 0
  decode_cursor ride_id (some cursor) = decode_parts ride_id cursor (split b'.' cursor)
