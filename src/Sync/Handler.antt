-- ===== src/Sync/Handler.antt =====
-- `RelayService.synchronize` of apps/server/src/balloon_crumbs_server/service.py: one transaction
-- on the database. Requests for one ride are serialised by the lock on its row.
use balloon_crumbs.Prelude.{
  ℕ, ◌+◌, String, Bool, true, false, not, ◌&&◌, ◌||◌, Option, none, some, List, [], ◌∷◌, ◌++◌,
  str_eq, ltb, leb, if◌then◌else◌, is_some, length, keep, find, sum_of, count_of,
}
use balloon_crumbs.Result.{relay_service_error, ok, or_raise}
use balloon_crumbs.Effect.{Exec, pure, lift, gets, transaction, ◌>>=◌, ◌>>◌, modify, raise_if}
use balloon_crumbs.Json.{Value, text, array, object, Items, nil, cons, get}
use balloon_crumbs.Models.{Ride, IdempotencyReplay, Db, find_ride, put_ride}
use balloon_crumbs.Text.{utf8, compare_digest}
use balloon_crumbs.Text.Parts.{format}
use balloon_crumbs.Env.{Env, hours}
use balloon_crumbs.Crypto.{token_hash, encrypt_json, decrypt_json}
use balloon_crumbs.Membership.{project_membership_events}
use balloon_crumbs.Sync.Event.{ValidatedEvent}
use balloon_crumbs.Sync.Store.{store_events, validate_event_conflicts, purge_ride, purge_rows}
use balloon_crumbs.Sync.Request.{SyncRequest, event_ids, check_request}
use balloon_crumbs.Sync.Response.{SyncResponse, model_dump, build_response}

-- What `os.urandom` gives to one request: a nonce for the event with each sequence, and one for
-- the stored response.
pub record Entropy : Type 0 where
  pub event_nonce : ℕ → List ℕ
  pub response_nonce : List ℕ

unfoldable pub replay_aad : String → String → List ℕ
replay_aad ride_id idempotency_key =
    utf8 (format ("replay:" ∷ ride_id ∷ ":" ∷ idempotency_key ∷ []))

-- whether the last event of the batch that ends or reopens the ride ends it
abbrev pub is_ended_by : Bool → List ValidatedEvent → Bool
is_ended_by ended [] = ended
is_ended_by ended (e ∷ events) =
    is_ended_by
      (if str_eq e.event_type "rideEnded"
        then true
        else if str_eq e.event_type "rideReopened"
        then false
        else ended)
      events

-- `[value for value in stored["acceptedEventIds"]]`, if every value is a text
abbrev pub all_texts : Items → Option (List String)
all_texts nil = some []
all_texts (cons (text s) vs) = elim (all_texts vs) [ none ↦ none | some rest ↦ some (s ∷ rest) ]
all_texts (cons _ vs) = none

abbrev pub accepted_ids_of : Value → Option (List String)
accepted_ids_of (object fs) = elim (get "acceptedEventIds" fs) [
  | array vs ↦ all_texts vs
  | _ ↦ none
]
accepted_ids_of _ = none

abbrev pub replay_at : String → String → ℕ → IdempotencyReplay → Bool
replay_at ride_id key now r =
    str_eq r.ride_id ride_id && str_eq r.idempotency_key key && ltb now r.expires_at

module _ (env : Env) where
  -- Two requests cannot claim one ride at once here, so that the insertion never conflicts.
  unfoldable pub get_or_claim_ride : String → String → ℕ → Exec Db Ride
  get_or_claim_ride ride_id bearer_token now db = elim (find_ride ride_id db.rides) [
    | some ride ↦ (ok ride, db)
    | none ↦
        (do
          raise_if
              (leb env.settings.maximum_active_rides
                (count_of (λ r. ltb now r.delete_after) db.rides))
              (relay_service_error 503 "Relay ride capacity reached")
          hash ← lift (token_hash env bearer_token)
          let claimed : Ride = record {
            id = ride_id;
            token_hash = hash;
            created_at = now;
            last_seen_at = now;
            delete_after = now + hours env.settings.ride_retention_hours;
            ended_at = none;
            stored_event_count = 0;
            stored_event_bytes = 0;
            membership_projection_ready = true;
            authority_root_public_key = none;
          }
          modify (λ s. record s { rides = s.rides ++ claimed ∷ [] })
          pure claimed)
          db
  ]

  -- `ride.last_seen_at = now`, and the full retention again unless the ride has ended
  unfoldable pub touch_ride : ℕ → Ride → Ride
  touch_ride now ride = record ride {
    last_seen_at = now;
    delete_after =
        if is_some ride.ended_at
        then ride.delete_after
        else now + hours env.settings.ride_retention_hours;
  }

  unfoldable pub store_replay : SyncRequest → List ℕ → ℕ → Exec Db (Unit {0})
  store_replay q response_ciphertext now = do
    count ← gets (λ db. count_of (λ r. str_eq r.ride_id q.ride_id) db.replays)
    bytes ← gets (λ db.
        sum_of (λ r. str_eq r.ride_id q.ride_id) (λ r. length r.response_ciphertext) db.replays)
    raise_if
        (ltb env.settings.maximum_replays_per_ride (count + 1)
          || ltb env.settings.maximum_replay_bytes_per_ride (bytes + length response_ciphertext))
        (relay_service_error 413 "Ride replay quota exceeded")
    modify (λ db. record db {
      replays =
          db.replays
          ++ record {
            ride_id = q.ride_id;
            idempotency_key = q.idempotency_key;
            request_hash = q.request_hash;
            response_ciphertext = response_ciphertext;
            created_at = now;
            expires_at = now + hours env.settings.idempotency_retention_hours;
          }
            ∷ [];
    })

  -- the stored upload is answered again, with a download from this request's cursor
  unfoldable pub answer_replay :
      SyncRequest → IdempotencyReplay → Ride → ℕ → ℕ → Exec Db SyncResponse
  answer_replay q replay ride cursor_sequence now = do
    raise_if (not (compare_digest replay.request_hash q.request_hash))
        (relay_service_error 409 "Idempotency key conflict")
    stored ←
        lift (decrypt_json env replay.response_ciphertext (replay_aad q.ride_id q.idempotency_key))
    accepted_ids ←
        lift
          (or_raise (accepted_ids_of stored) (relay_service_error 500 "Stored replay is invalid"))
    stored_events ← gets (λ db. db.events)
    response ← lift (build_response env q.ride_id accepted_ids cursor_sequence now stored_events)
    modify (λ db. record db { rides = put_ride (touch_ride now ride) db.rides })
    pure response

  -- the rows that the loop of `_store_events` has added, written to their tables
  unfoldable pub save_batch : Entropy → ℕ → Ride → List ValidatedEvent → Exec Db Ride
  save_batch entropy now ride events = do
    stored ← gets (λ db. db.events)
    existing ← lift (validate_event_conflicts ride.id events stored)
    next_row ← gets (λ db. db.next_row)
    batch ← lift (
        store_events env entropy.event_nonce now existing events
          (record { ride = ride; added = []; membership = []; next_row = next_row }))
    members ← gets (λ db. db.members)
    projected ← lift (project_membership_events ride.id batch.membership members)
    modify (λ db. record db {
      rides = put_ride batch.ride db.rides;
      events = db.events ++ batch.added;
      members = projected;
      next_row = batch.next_row;
    })
    pure batch.ride

  -- `if events:` the response is stored for a repetition of the request
  unfoldable pub keep_replay :
      Entropy → SyncRequest → List ValidatedEvent → SyncResponse → ℕ → Exec Db (Unit {0})
  unfolding store_replay
  keep_replay entropy q [] response now = pure tt
  keep_replay entropy q (e ∷ events) response now = do
    ciphertext ← lift (
        encrypt_json env entropy.response_nonce (model_dump response)
          (replay_aad q.ride_id q.idempotency_key))
    store_replay q ciphertext now

  -- Only a batch whose last end or reopening is an end discards the live positions.
  unfoldable pub discard_positions : String → List ValidatedEvent → Db → Db
  discard_positions ride_id events db = record db {
    positions =
        if is_ended_by false events
        then keep (λ p. not (str_eq p.ride_id ride_id)) db.positions
        else db.positions;
  }

  unfoldable pub upload :
      Entropy → SyncRequest → List ValidatedEvent → Ride → ℕ → ℕ → Exec Db SyncResponse
  upload entropy q events ride cursor_sequence now = do
    ride' ← save_batch entropy now ride events
    modify (discard_positions q.ride_id events)
    stored_events ← gets (λ db. db.events)
    response ←
        lift (build_response env q.ride_id (event_ids events) cursor_sequence now stored_events)
    keep_replay entropy q events response now
    modify (λ db. record db { rides = put_ride (touch_ride now ride') db.rides })
    pure response

  -- the stored replay that the request repeats; an empty batch repeats none
  abbrev pub find_replay : SyncRequest → List ValidatedEvent → ℕ → Db → Option IdempotencyReplay
  find_replay q [] now db = none
  find_replay q (e ∷ es) now db = find (replay_at q.ride_id q.idempotency_key now) db.replays

  unfoldable pub within_ride :
      Entropy → SyncRequest → List ValidatedEvent → ℕ → ℕ → Exec Db SyncResponse
  within_ride entropy q events cursor_sequence now = do
    claimed ← get_or_claim_ride q.ride_id q.bearer_token now
    hash ← lift (token_hash env q.bearer_token)
    raise_if (not (compare_digest claimed.token_hash hash))
        (relay_service_error 403 "Ride credential rejected")
    stored ← gets (λ db. db.events)
    let ride = purge_ride now claimed stored
    modify (λ db.
        let db' = purge_rows now q.ride_id db in record db' { rides = put_ride ride db'.rides })
    replay ← gets (find_replay q events now)
    elim replay [
      | some r ↦ answer_replay q r ride cursor_sequence now
      | none ↦ upload entropy q events ride cursor_sequence now
    ]

  unfoldable pub synchronize : Entropy → SyncRequest → ℕ → Exec Db SyncResponse
  synchronize entropy q now = do
    checked ← lift (check_request env q now)
    transaction (within_ride entropy q checked.1 checked.0 now)
