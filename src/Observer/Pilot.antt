-- ===== src/Observer/Pilot.antt =====
-- Who is the pilot of a flight: `_current_pilot_authority` of
-- apps/server/src/balloon_crumbs_server/observer.py, a fold over the stored events.
pub mod Sound
pub mod Remains
use balloon_crumbs.Prelude.{
  subst, ◌≡◌, refl, sym, ap, ◌∙◌, ◌≢◌, ◌↔◌, ◌⊎◌, inl, inr, ℕ, zero, suc, ◌+◌, ◌-◌, ◌*◌, ◌/◌, ◌%◌,
  ◌^◌, ◌≤◌, ◌<◌, min, max, String, Bool, true, false, not, ◌&&◌, ◌||◌, Option, none, some, List, [],
  ◌∷◌, ◌++◌, map, arith, str_eq, eq_iff, ltb, leb, ◌==◌, if◌then◌else◌, ==_iff, ltb→lt, leb→le,
  Bool-cases, Option-cases, is_some, length, take, drop, keep, find, all, any, sum_of, last_or,
  length-append, sum_of-append, sum_of-keep, length-keep-le, keep-append, count_of, contains,
}
use balloon_crumbs.Result.{
  Fault, relay_service_error, value_error, type_error, overflow_error, invalid_tag, integrity_error,
  Result, ok, err, ◌>>=◌, ◌>>◌, reject, or_raise, except_value_error, >>=-eq-ok, >>=-invert,
  ok-injective, Result-cases,
}
use balloon_crumbs.Json.{
  Value, null, boolean, natural, negative, double, text, array, object, Items, nil, cons, Fields,
  end, field, is_finite, get, keys, length_items, as_text, as_object, is_boolean, is_null, is_text,
  in_texts, equals_one, equals_two, in_versions,
}
use balloon_crumbs.Models.{
  Ride, RideJoinCode, RidePlan, StoredEvent, RideMember, PreStartPosition, IdempotencyReplay,
  ObserverGrant, CrewRoom, CrewRoomDevice, Db, empty, is_expired, is_live, find_ride, put_ride,
}
use balloon_crumbs.Prelude.Order.{order_by}
use balloon_crumbs.Text.Parts.{format}
use balloon_crumbs.Env.{Env, minutes}
use balloon_crumbs.Crypto.{decrypt_json}
use balloon_crumbs.Sync.Store.{event_of, event_aad}
use balloon_crumbs.Observer.Signatures.{
  is_signed_by, verify_event_signature, event_time, device_id_matches,
}

pub record Offer : Type 0 where
  pub transfer_id : String
  pub from_device_id : String
  pub to_device_id : String
  pub offered_at : ℕ
  pub expires_at : ℕ

pub record Authority : Type 0 where
  pub device_keys : List (String × String)
  pub revoked : List String
  pub pilot_device_id : Option String
  pub offers : List Offer

abbrev pub no_authority : Authority
no_authority = record { device_keys = []; revoked = []; pilot_device_id = none; offers = [] }

-- an event whose signature holds
pub record Signed : Type 0 where
  pub device_id : String
  pub public_key : String
  pub event_type : Value
  pub created_at : Value
  pub payload : Fields

abbrev pub key_of : String → List (String × String) → Option String
key_of id [] = none
key_of id ((d, k) ∷ rest) = if str_eq d id then some k else key_of id rest

-- `device_keys[id] = key`
unfoldable pub put_key : String → String → List (String × String) → List (String × String)
put_key id key [] = (id, key) ∷ []
put_key id key ((d, k) ∷ rest) =
    if str_eq d id then (d, key) ∷ rest else (d, k) ∷ put_key id key rest

-- `offers[transfer_id] = offer`, which the newest stands in front of
abbrev pub offer_at : String → List Offer → Option Offer
offer_at id offers = find (λ o. str_eq o.transfer_id id) offers

-- `value == optional`, for a value that is no `None`
abbrev pub is_the_text : String → Option String → Bool
is_the_text s none = false
is_the_text s (some t) = str_eq t s

abbrev pub equals_pilot : Value → Option String → Bool
equals_pilot null none = true
equals_pilot (text s) (some t) = str_eq s t
equals_pilot _ _ = false

abbrev authority_types : List String
authority_types =
    "rideCreated" ∷ "riderJoined" ∷ "pilotHandoverOffered" ∷ "pilotHandoverAccepted"
    ∷ "deviceAuthorityRotated" ∷ "deviceAuthorityRevoked" ∷ []

unfoldable pub is_authority_event : String → StoredEvent → Bool
is_authority_event ride_id e = event_of ride_id e && contains str_eq e.event_type authority_types

-- the first device of a ride, which its creator enrols, and those that join it
unfoldable pub enrol_created : String → Signed → Authority → Authority
enrol_created root_public_key e a =
    if is_some a.pilot_device_id
      || not (str_eq e.public_key root_public_key)
      || not (is_text "pilot" (get "flightRole" e.payload))
    then a
    else record a {
      pilot_device_id = some e.device_id;
      device_keys = put_key e.device_id e.public_key a.device_keys;
    }

unfoldable pub enrol_joined : Signed → Authority → Result Authority
enrol_joined e a = do
  reserved ← in_texts (get "flightRole" e.payload) ("pilot" ∷ "observer" ∷ [])
  ok (
      if reserved
      then a
      else record a { device_keys = put_key e.device_id e.public_key a.device_keys })

unfoldable pub revoke_in : Option String → Authority → Authority
revoke_in none a = a
revoke_in (some target) a =
    if is_the_text target a.pilot_device_id then a else record a { revoked = target ∷ a.revoked }

unfoldable pub revoke_target : Signed → Authority → Authority
unfolding revoke_in
revoke_target e a = revoke_in (as_text (get "targetDeviceId" e.payload)) a

-- an offer that is complete, with its two times
unfoldable pub offer_of : Signed → Authority → Option ℕ → Option ℕ → Option Offer
offer_of e a offered_at expires_at = elim (as_text (get "transferId" e.payload)) [
  | none ↦ none
  | some transfer_id ↦ elim (as_text (get "toDeviceId" e.payload)) [
    | none ↦ none
    | some to_device_id ↦ elim offered_at [
      | none ↦ none
      | some offered ↦ elim expires_at [
        | none ↦ none
        | some expires ↦
            if not (str_eq transfer_id "")
              && equals_pilot (get "fromDeviceId" e.payload) a.pilot_device_id
              && not (is_the_text to_device_id a.pilot_device_id)
              && ltb offered expires
            then some (record {
              transfer_id = transfer_id;
              from_device_id = e.device_id;
              to_device_id = to_device_id;
              offered_at = offered;
              expires_at = expires;
            })
            else none
      ]
    ]
  ]
]

unfoldable pub add_offer : Option Offer → Authority → Authority
add_offer none a = a
add_offer (some offer) a = record a { offers = offer ∷ a.offers }

unfoldable pub accepts_offer : Signed → Authority → ℕ → Offer → Bool
accepts_offer e a accepted_at offer =
    is_the_text offer.from_device_id a.pilot_device_id
    && str_eq offer.to_device_id e.device_id
    && equals_pilot (get "fromDeviceId" e.payload) a.pilot_device_id
    && is_text e.device_id (get "toDeviceId" e.payload)
    && leb accepted_at offer.expires_at
    && leb offer.offered_at (accepted_at + minutes 2)

unfoldable pub accept_offer : Option Offer → Option ℕ → Signed → Authority → Authority
unfolding accepts_offer
accept_offer none time e a = a
accept_offer (some offer) none e a = a
accept_offer (some offer) (some accepted_at) e a =
    if accepts_offer e a accepted_at offer
    then record a { pilot_device_id = some e.device_id }
    else a

-- a device with its key, unless it is revoked
unfoldable pub with_key : String → Bool → Option String → Option (String × String)
with_key id true key = none
with_key id false none = none
with_key id false (some key) = some (id, key)

unfoldable pub pilot_from : Option String → Authority → Option (String × String)
unfolding with_key
pilot_from none a = none
pilot_from (some id) a = with_key id (contains str_eq id a.revoked) (key_of id a.device_keys)

unfoldable pub pilot_of : Authority → Option (String × String)
unfolding pilot_from
pilot_of a = pilot_from a.pilot_device_id a

module _ (env : Env) (ride_id root_public_key : String) where
  unfoldable pub rotation_challenge : Signed → String → String
  rotation_challenge e new_key = format (
      "balloon-crumbs-device-rotation-v1\n" ∷ ride_id ∷ "\n" ∷ e.device_id ∷ "\n" ∷ e.public_key
      ∷ "\n" ∷ new_key ∷ [])

  unfoldable pub rotate_to : Option String → Option String → Signed → Authority → Authority
  rotate_to none signature e a = a
  rotate_to (some new_key) none e a = a
  rotate_to (some new_key) (some signature) e a =
      if is_signed_by env new_key signature (rotation_challenge e new_key)
      then record a { device_keys = put_key e.device_id new_key a.device_keys }
      else a

  unfoldable pub rotate_key : Signed → Authority → Authority
  unfolding rotate_to
  rotate_key e a =
      rotate_to (as_text (get "newPublicKey" e.payload))
        (as_text (get "newDeviceSignature" e.payload)) e a

  -- a device that has a key is not enrolled again
  unfoldable pub enrol_unknown : Option String → Signed → Authority → Result Authority
  unfolding enrol_created enrol_joined
  enrol_unknown (some key) e a = ok a
  enrol_unknown none e a = device_id_matches env ride_id e.device_id e.public_key >>= λ matches.
      if not matches
      then ok a
      else if is_text "rideCreated" e.event_type
      then ok (enrol_created root_public_key e a)
      else enrol_joined e a

  -- `rideCreated` and `riderJoined`
  unfoldable pub enrol_device : Signed → Authority → Result Authority
  unfolding enrol_unknown
  enrol_device e a = enrol_unknown (key_of e.device_id a.device_keys) e a

  unfoldable pub offer_handover : Signed → Authority → Result Authority
  unfolding offer_of add_offer
  offer_handover e a = do
    offered_at ← event_time env e.created_at
    expires_at ← event_time env (get "expiresAt" e.payload)
    ok (add_offer (offer_of e a offered_at expires_at) a)

  abbrev pub offered : Option String → List Offer → Option Offer
  offered none offers = none
  offered (some transfer_id) offers = offer_at transfer_id offers

  unfoldable pub accept_handover : Signed → Authority → Result Authority
  unfolding accept_offer
  accept_handover e a = do
    accepted_at ← event_time env e.created_at
    ok (accept_offer (offered (as_text (get "transferId" e.payload)) a.offers) accepted_at e a)

  -- the other events, of a device that signs with its current key and is not revoked
  unfoldable pub act : Signed → Authority → Result Authority
  unfolding rotate_key revoke_target offer_handover accept_handover
  act e a =
      if not (is_the_text e.public_key (key_of e.device_id a.device_keys))
        || contains str_eq e.device_id a.revoked
      then ok a
      else if is_text "deviceAuthorityRotated" e.event_type
      then ok (rotate_key e a)
      else if is_text "deviceAuthorityRevoked" e.event_type
          && is_the_text e.device_id a.pilot_device_id
      then ok (revoke_target e a)
      else if is_text "pilotHandoverOffered" e.event_type
          && is_the_text e.device_id a.pilot_device_id
      then offer_handover e a
      else if is_text "pilotHandoverAccepted" e.event_type
      then accept_handover e a
      else ok a

  unfoldable pub apply_signed : Signed → Authority → Result Authority
  unfolding enrol_device act
  apply_signed e a = do
    enrols ← in_texts e.event_type ("rideCreated" ∷ "riderJoined" ∷ [])
    if enrols then enrol_device e a else act e a

  -- a body with the fields of the right types; any other is skipped
  unfoldable pub signed_of : Fields → Option Signed
  signed_of body =
      if not (equals_two (get "schemaVersion" body))
      then none
      else elim (as_text (get "deviceId" body)) [
        | none ↦ none
        | some device_id ↦ elim (as_text (get "devicePublicKey" body)) [
          | none ↦ none
          | some public_key ↦ elim (as_object (get "payload" body)) [
            | none ↦ none
            | some payload ↦ some (record {
              device_id = device_id;
              public_key = public_key;
              event_type = get "type" body;
              created_at = get "createdAt" body;
              payload = payload;
            })
          ]
        ]
      ]

  unfoldable pub apply_valid : Option Signed → Fields → Authority → Result Authority
  unfolding apply_signed
  apply_valid none body a = ok a
  apply_valid (some e) body a =
      verify_event_signature env body >>= λ valid. if valid then apply_signed e a else ok a

  -- a body that is no JSON or no dictionary is skipped; one that does not open raises
  unfoldable pub apply_body : Result Value → Authority → Result Authority
  unfolding signed_of apply_valid
  apply_body (ok (object body)) a = apply_valid (signed_of body) body a
  apply_body (ok _) a = ok a
  apply_body (err value_error) a = ok a
  apply_body (err e) a = err e

  unfoldable pub apply_row : StoredEvent → Authority → Result Authority
  unfolding apply_body
  apply_row row a =
      apply_body (decrypt_json env row.body_ciphertext (event_aad ride_id row.event_id)) a

  unfoldable pub apply_rows : List StoredEvent → Authority → Result Authority
  unfolding apply_row
  apply_rows [] a = ok a
  apply_rows (row ∷ rows) a = apply_row row a >>= λ a'. apply_rows rows a'

  unfoldable pub current_pilot_authority : List StoredEvent → Result (Option (String × String))
  unfolding apply_rows pilot_of
  current_pilot_authority events = do
    a ←
        apply_rows (keep (is_authority_event ride_id) (order_by (λ e. e.sequence) events))
          no_authority
    ok (pilot_of a)
