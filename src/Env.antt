-- ===== src/Env.antt =====
-- What the relay is configured with and what it calls but does not implement: the settings of
-- apps/server/src/balloon_crumbs_server/config.py, and the primitives of hashlib, hmac,
-- cryptography, base64, json, datetime, time and the Unicode database.
use balloon_crumbs.Prelude.{ℕ, String, Bool, Option, List, ◌*◌}
use balloon_crumbs.Json.{Value}

-- An instant or a duration is a number of microseconds, the resolution of `datetime`.
unfoldable pub seconds : ℕ → ℕ
seconds n = n * 1000000

unfoldable pub minutes : ℕ → ℕ
unfolding seconds
minutes n = seconds (n * 60)

unfoldable pub hours : ℕ → ℕ
unfolding seconds
hours n = seconds (n * 3600)

-- the fields of `Settings` that the modelled functions read
pub record Settings : Type 0 where
  pub ride_retention_hours : ℕ
  pub ended_ride_grace_hours : ℕ
  pub idempotency_retention_hours : ℕ
  pub maximum_response_bytes : ℕ
  pub maximum_event_bytes : ℕ
  pub maximum_upload_events : ℕ
  pub maximum_download_events : ℕ
  pub maximum_active_rides : ℕ
  pub maximum_events_per_ride : ℕ
  pub maximum_stored_bytes_per_ride : ℕ
  pub maximum_replays_per_ride : ℕ
  pub maximum_replay_bytes_per_ride : ℕ
  pub pre_start_presence_ttl_seconds : ℕ
  pub maximum_pre_start_presence_riders : ℕ
  pub plan_retention_days : ℕ
  pub maximum_plan_bytes : ℕ
  pub maximum_plan_points : ℕ
  pub maximum_observer_grants_per_ride : ℕ

unfoldable pub days : ℕ → ℕ
unfolding hours
days n = hours (n * 24)

-- a `float`: a finite one is its sign, and its magnitude as a fraction whose denominator is a power of two
pub data Float : Type 0 where
  nan infinite : Float
  finite : Bool → ℕ → ℕ → Float

mutual
  -- an element of an XML document: its tag, its attributes and its children
  pub data Element : Type 0 where
    element : String → List (String × String) → Elements → Element

  pub data Elements : Type 0 where
    no_elements : Elements
    and_element : Element → Elements → Elements

-- what `ElementTree.fromstring` answers: a document's root, or the words of its `ParseError`
pub data Parsing : Type 0 where
  parse_error : String → Parsing
  document : Element → Parsing

-- what `datetime.fromisoformat` returns: a time with an offset (the instant in UTC, or one that UTC
-- cannot represent) or without one
pub data Parsed : Type 0 where
  aware naive : ℕ → Parsed
  unrepresentable : Parsed

pub record Env : Type 0 where
  pub settings : Settings
  pub data_encryption_key : List ℕ
  pub cursor_signing_key : List ℕ
  -- hashlib.sha256, hmac.new(key, message, sha256)
  pub sha256 : List ℕ → List ℕ
  pub hmac_sha256 : List ℕ → List ℕ → List ℕ
  -- AESGCM(key).encrypt(nonce, plaintext, aad), and decrypt, where `none` is `InvalidTag`
  pub seal : List ℕ → List ℕ → List ℕ → List ℕ → List ℕ
  pub unseal : List ℕ → List ℕ → List ℕ → List ℕ → Option (List ℕ)
  -- base64.urlsafe_b64encode, with its padding
  pub urlsafe_b64encode : List ℕ → String
  pub urlsafe_b64decode : String → Option (List ℕ)
  -- Ed25519PublicKey.from_public_bytes(key).verify(signature, message)
  pub verify : List ℕ → List ℕ → List ℕ → Bool
  -- json.dumps without and with `ensure_ascii`, and with sorted keys, and json.loads; `none` is a `ValueError`
  pub dumps : Value → Option String
  pub dumps_ascii : Value → Option String
  pub dumps_sorted : Value → Option String
  pub loads : List ℕ → Option Value
  pub fromisoformat : String → Option Parsed
  pub isoformat : ℕ → String
  -- the Unicode database: what `\d` and `str.isdigit` match, and the decimal that `int` reads
  pub is_decimal : ℕ → Bool
  pub is_digit : ℕ → Bool
  pub decimal_value : ℕ → Option ℕ
  -- the key that the database gives to the n-th row that is added to `ride_events`
  pub row_key : ℕ → ℕ
  -- the collation of the database: whether a text is ordered no later than another
  pub collates : String → String → Bool
  -- `str.upper`
  pub upper : String → String
  -- `str.lower`, `float(text)`, where `none` is a `ValueError`, and `ElementTree.fromstring`
  pub lower : String → String
  pub float : String → Option Float
  pub fromstring : String → Parsing
