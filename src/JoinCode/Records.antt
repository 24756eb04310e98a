-- ===== src/JoinCode/Records.antt =====
-- The encrypted record of a ride code and the checks on it: `_validate_join_code`,
-- `_validate_join_credential`, `_join_code_aad` and the validations of `resolve_join_code`
-- (apps/server/src/balloon_crumbs_server/service.py).
use balloon_crumbs.Prelude.{
  ℕ, String, Bool, true, not, ◌&&◌, Option, none, some, List, leb, ◌==◌, all,
}
use balloon_crumbs.Result.{
  Fault, relay_service_error, Result, ok, err, ◌>>=◌, ◌>>◌, reject, or_raise, except_value_error,
}
use balloon_crumbs.Json.{Value, null, text, object, Fields, end, field, get, as_text}
use balloon_crumbs.Models.{RideJoinCode}
use balloon_crumbs.Text.{codes, text_len, utf8, is_identifier, is_base64url_text}
use balloon_crumbs.Text.Parts.{append}
use balloon_crumbs.Env.{Env}
use balloon_crumbs.Crypto.{base64url, compare_text, token_hash, encrypt_json, decrypt_json}

-- the arguments of `register_join_code`
pub record Registration : Type 0 where
  pub ride_code : String
  pub ride_id : String
  pub invite_secret : String
  pub bearer_token : String
  pub resolve_token : String
  pub authority_root_public_key : Option String

-- what `resolve_join_code` returns
pub record Resolved : Type 0 where
  pub ride_id : String
  pub ride_code : String
  pub invite_secret : String
  pub resolve_token : String
  pub authority_root_public_key : Option String

unfoldable pub join_code_aad : String → List ℕ
join_code_aad ride_code = utf8 (append "join-code:" ride_code)

-- `16 <= len(text) <= most`
abbrev pub has_length : ℕ → String → Bool
has_length most s = leb 16 (text_len s) && leb (text_len s) most

-- `re.fullmatch(r"[A-Za-z0-9_-]{43}", key)`
abbrev pub is_public_key : String → Bool
is_public_key key = is_base64url_text 43 key

-- a key that is missing or well formed
abbrev pub accepts_key : Option String → Bool
accepts_key none = true
accepts_key (some key) = is_public_key key

abbrev authority_field : Option String → Fields
authority_field none = end
authority_field (some key) = field "authorityRootPublicKey" (text key) end

-- the document that is sealed
unfoldable pub secret_of : Registration → Value
secret_of r = object (
    field "inviteSecret" (text r.invite_secret)
      (field "resolveToken" (text r.resolve_token) (authority_field r.authority_root_public_key)))

abbrev pub invalid_record : Fault
invalid_record = relay_service_error 500 "Ride code record is invalid"

-- the optional key in a stored record
abbrev stored_key : Value → Result (Option String)
stored_key null = ok none
stored_key (text key) = reject (not (is_public_key key)) invalid_record >> ok (some key)
stored_key _ = err invalid_record

-- the secret, the token and the key in a stored record, if they are well formed
unfoldable pub read_record : String → String → Value → Result Resolved
read_record ride_id ride_code (object fs) = do
  secret ← or_raise (as_text (get "inviteSecret" fs)) invalid_record
  reject (not (has_length 512 secret)) invalid_record
  token ← or_raise (as_text (get "resolveToken" fs)) invalid_record
  reject (not (has_length 128 token)) invalid_record
  key ← stored_key (get "authorityRootPublicKey" fs)
  ok (record {
    ride_id = ride_id;
    ride_code = ride_code;
    invite_secret = secret;
    resolve_token = token;
    authority_root_public_key = key;
  })
read_record ride_id ride_code _ = err invalid_record

-- `resolve_token is not None and not hmac.compare_digest(stored, given)`
unfoldable pub check_resolve_token : Option String → String → Result (Unit {0})
check_resolve_token none stored = ok tt
check_resolve_token (some given) stored = do
  same ← compare_text stored given
  reject (not same) (relay_service_error 404 "Ride code is not active")

module _ (env : Env) where
  -- `\d{6}`, whose digits are those of every script
  unfoldable pub is_join_code : String → Bool
  is_join_code s = text_len s == 6 && all env.is_decimal (codes s)

  unfoldable pub validate_join_code : String → Result (Unit {0})
  unfolding is_join_code
  validate_join_code ride_code =
      reject (not (is_join_code ride_code)) (relay_service_error 400 "Ride code must be six digits")

  unfoldable pub expected_token : String → String → String
  expected_token ride_id invite_secret = append "rr1_" (
      base64url env (
        env.hmac_sha256 (utf8 invite_secret)
          (utf8 (append "balloon-crumbs-internet-token-v1\n" ride_id))))

  unfoldable pub validate_join_credential : String → String → String → Result (Unit {0})
  unfolding expected_token
  validate_join_credential ride_id invite_secret bearer_token = do
    reject (not (is_identifier ride_id)) (relay_service_error 400 "Invalid ride identity")
    reject (not (has_length 512 invite_secret)) (relay_service_error 400 "Invalid ride credential")
    same ← compare_text bearer_token (expected_token ride_id invite_secret)
    reject (not same) (relay_service_error 403 "Ride credential rejected")

  -- the checks before the transaction, with the hash and the ciphertext that they compute
  unfoldable pub check_registration : List ℕ → Registration → Result (List ℕ × List ℕ)
  unfolding validate_join_code validate_join_credential
  check_registration nonce r = do
    validate_join_code r.ride_code
    validate_join_credential r.ride_id r.invite_secret r.bearer_token
    reject (not (has_length 128 r.resolve_token))
        (relay_service_error 400 "Invalid ride credential")
    reject (not (accepts_key r.authority_root_public_key))
        (relay_service_error 400 "Invalid device authority")
    hash ← token_hash env r.bearer_token
    ciphertext ← encrypt_json env nonce (secret_of r) (join_code_aad r.ride_code)
    ok (hash, ciphertext)

  -- what a live record resolves to
  unfoldable pub open_record : String → Option String → RideJoinCode → Result Resolved
  unfolding read_record check_resolve_token
  open_record ride_code resolve_token row = do
    value ←
        except_value_error (decrypt_json env row.secret_ciphertext (join_code_aad ride_code))
          invalid_record
    resolved ← read_record row.ride_id row.code value
    check_resolve_token resolve_token resolved.resolve_token
    ok resolved
