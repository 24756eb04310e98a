-- ===== src/Tests/Sample.antt =====
-- A relay with toy primitives, a request and a database to run it on.
use balloon_crumbs.Prelude.{
  ℕ, ◌-◌, String, Bool, false, ◌&&◌, Option, none, some, List, [], ◌∷◌, ◌++◌, leb, if◌then◌else◌,
  length, drop,
}
use balloon_crumbs.Json.{Value, null, boolean, natural, text, object, Fields, end, field}
use balloon_crumbs.Models.{StoredEvent}
use balloon_crumbs.Text.{codes}
use balloon_crumbs.Env.{
  Env, Settings, aware, Element, element, no_elements, and_element, document, finite,
}
use balloon_crumbs.Sync.Request.{SyncRequest}
use balloon_crumbs.Sync.Handler.{Entropy}

abbrev pub settings : Settings
settings = record {
  ride_retention_hours = 72;
  ended_ride_grace_hours = 24;
  idempotency_retention_hours = 24;
  maximum_response_bytes = 4096;
  maximum_event_bytes = 8192;
  maximum_upload_events = 20;
  maximum_download_events = 1;
  maximum_active_rides = 100;
  maximum_events_per_ride = 5000;
  maximum_stored_bytes_per_ride = 26214400;
  maximum_replays_per_ride = 5000;
  maximum_replay_bytes_per_ride = 26214400;
  pre_start_presence_ttl_seconds = 45;
  maximum_pre_start_presence_riders = 2;
  plan_retention_days = 30;
  maximum_plan_bytes = 64;
  maximum_plan_points = 2;
  maximum_observer_grants_per_ride = 1;
}

abbrev pub zeros : List ℕ
zeros = 0 ∷ 0 ∷ 0 ∷ 0 ∷ 0 ∷ 0 ∷ 0 ∷ 0 ∷ 0 ∷ 0 ∷ 0 ∷ 0 ∷ 0 ∷ 0 ∷ 0 ∷ 0 ∷ []

abbrev pub is_ascii_digit : ℕ → Bool
is_ascii_digit c = leb 48 c && leb c 57

-- every text parses to a document with one track point
abbrev gpx_root : Element
gpx_root = element "gpx" [] (
    and_element
      (element "{http://www.topografix.com}trkpt" (("lat", "51") ∷ ("lon", "51") ∷ []) no_elements)
      no_elements)

-- Digests are the identity, the cipher prefixes 16 bytes, and every document is the empty object.
abbrev pub env : Env
env = record {
  settings = settings;
  data_encryption_key = [];
  cursor_signing_key = [];
  sha256 = λ b. b;
  hmac_sha256 = λ k m. m;
  seal = λ k n p a. zeros ++ p;
  unseal = λ k n c a. some (drop 16 c);
  urlsafe_b64encode = λ b. "c2ln";
  urlsafe_b64decode = λ s. none;
  verify = λ k s m. false;
  dumps = λ v. some "{}";
  dumps_ascii = λ v. some "{}";
  dumps_sorted = λ v. some "{}";
  loads = λ b. some (object end);
  fromisoformat = λ s. some (aware 1000);
  isoformat = λ t. "1970-01-01T00:00:00+00:00";
  is_decimal = is_ascii_digit;
  is_digit = is_ascii_digit;
  decimal_value = λ c. if is_ascii_digit c then some (c - 48) else none;
  upper = λ s. s;
  lower = λ s. s;
  float = λ s. some (finite false 51 0);
  fromstring = λ s. document gpx_root;
  row_key = λ n. n;
  collates = λ a b. leb (length (codes a)) (length (codes b));
}

abbrev pub token : String
token = "rr1_AAAAAAAAAAAAAAAAAAAAAAAAAAAAAAAAAAAAAAAAAAA"

-- an event as a phone sends it
abbrev pub event : String → String → Value → Fields
event id type payload = field "schemaVersion" (natural 1) (
    field "id" (text id) (
      field "rideId" (text "ride-1") (
        field "deviceId" (text "device-1") (
          field "type" (text type) (
            field "priority" (text "routine") (
              field "createdAt" (text "1970-01-01T00:00:00Z") (
                field "expiresAt" null (
                  field "payload" payload (
                    field "signature"
                      (text "0000000000000000000000000000000000000000000000000000000000000000")
                      (field "acknowledged" (boolean false) end))))))))))

abbrev pub request : Option String → List Fields → SyncRequest
request cursor events = record {
  ride_id = "ride-1";
  bearer_token = token;
  idempotency_key = "rr1-AAAAAAAAAAAAAAAAAAAAAAAAAAAAAAAAAAAAAAAAAAA";
  request_hash = 7 ∷ [];
  device_header = "device-1";
  device_id = "device-1";
  cursor = cursor;
  events = events;
}

abbrev pub entropy : Entropy
entropy = record {
  event_nonce = λ n. 0 ∷ 0 ∷ 0 ∷ 0 ∷ 0 ∷ 0 ∷ 0 ∷ 0 ∷ 0 ∷ 0 ∷ 0 ∷ 0 ∷ [];
  response_nonce = 0 ∷ 0 ∷ 0 ∷ 0 ∷ 0 ∷ 0 ∷ 0 ∷ 0 ∷ 0 ∷ 0 ∷ 0 ∷ 0 ∷ [];
}

abbrev pub upload_two : SyncRequest
upload_two =
    request none
      (event "e1" "rideCreated" (object end) ∷ event "e2" "rideStarted" (object end) ∷ [])

abbrev pub row : ℕ → String → StoredEvent
row n id = record {
  sequence = n;
  ride_id = "ride-1";
  event_id = id;
  device_id = "device-1";
  event_type = "statusMessage";
  created_at = 1000;
  expires_at = some 9000;
  body_hash = [];
  body_ciphertext = 0 ∷ 0 ∷ 0 ∷ 0 ∷ 0 ∷ 0 ∷ 0 ∷ 0 ∷ 0 ∷ 0 ∷ 0 ∷ 0 ∷ zeros ++ 1 ∷ [];
}
