-- ===== src/Sync/Event/Sound.antt =====
-- What a validated event is known to be (service.py, `_validate_event`).
use balloon_crumbs.Prelude.{
  ◌≡◌, refl, sym, ap, ◌∙◌, inl, inr, ℕ, ◌+◌, ◌≤◌, String, Bool, true, false, Bool-cases, not, ◌||◌,
  Option, none, some, List, arith, str_eq, ltb, if◌then◌else◌, length, contains,
}
use balloon_crumbs.Result.{
  Fault, relay_service_error, value_error, type_error, ok, reject, or_raise, >>=-eq-ok, ◌>>=◌,
  ok-injective, Result-cases,
}
use balloon_crumbs.Json.{
  Value, null, boolean, natural, negative, double, text, array, object, Fields, get, keys, as_text,
  as_object, is_boolean, is_text, in_texts, equals_two, in_versions,
}
use balloon_crumbs.Plans.Codes.{err≢ok}
use balloon_crumbs.Text.{is_identifier, is_signature, utf8, text_len}
use balloon_crumbs.Env.{Env, minutes, Parsed, aware, naive, unrepresentable}
use balloon_crumbs.Text.Parts.{append}
use balloon_crumbs.Sync.Event.Shape.{validate_json_shape}
use balloon_crumbs.Sync.Event.{
  replace_z, to_utc, parse_timestamp, parse_expiry, ValidatedEvent, validate_event, validate_head,
  event_types, matched, validate_kind, same_set, event_fields, unsigned_fields, validate_authority,
}

-- The expiry that a value sets: none for `null`, and otherwise the instant that its text parses to.
pub data Expires (env : Env) (v : Value) (at : Option ℕ) : Type 0 where
  never : v ≡ null → at ≡ none → Expires env v at
  sometime :
      (s : String) (t : ℕ)
      → v ≡ text s
      → env.fromisoformat (replace_z s) ≡ some (aware t)
      → at ≡ some t
      → Expires env v at

-- A validated event is the value that was sent, belongs to the ride, has well-formed identities and
-- a known type, carries the instants that the value's timestamps parse to, is not from the future,
-- carries the UTF-8 of the whole value's JSON, within the size limit, and the hash of it.
pub record IsSound (env : Env) (value : Fields) (ride_id : String) (now : ℕ) (e : ValidatedEvent)
    : Type 0 where
  pub body : e.body ≡ value
  pub own : is_text ride_id (get "rideId" value) ≡ true
  pub named : (get "id" value ≡ text e.event_id) × (is_identifier e.event_id ≡ true)
  pub sent : (get "deviceId" value ≡ text e.device_id) × (is_identifier e.device_id ≡ true)
  pub known :
      (get "type" value ≡ text e.event_type) × (contains str_eq e.event_type event_types ≡ true)
  -- The text of `createdAt` parses to the instant that is stored, and so does that of `expiresAt`.
  pub created :
      (s : String) × (get "createdAt" value ≡ text s)
      × (env.fromisoformat (replace_z s) ≡ some (aware e.created_at))
  pub expires : Expires env (get "expiresAt" value) e.client_expires_at
  pub timely : e.created_at ≤ now + minutes 10
  pub small : length e.encoded ≤ env.settings.maximum_event_bytes
  pub encoding : (s : String) × (env.dumps_sorted (object value) ≡ some s) × (e.encoded ≡ utf8 s)
  pub hashed : e.body_hash ≡ env.sha256 e.encoded

matched-ok :
    (p : String → Bool) (v : Value) (message s : String)
    → matched p v message ≡ ok s
    → (v ≡ text s) × (p s ≡ true)
unfolding matched
matched-ok p null message s h = ground arith
matched-ok p (boolean b) message s h = ground arith
matched-ok p (natural n) message s h = ground arith
matched-ok p (negative n) message s h = ground arith
matched-ok p (double n) message s h = ground arith
matched-ok p (text t) message s h = ground arith
matched-ok p (array vs) message s h = ground arith
matched-ok p (object fs) message s h = ground arith

in_texts-ok :
    (v : Value) (names : List String) (name : String)
    → in_texts v names ≡ ok true
    → as_text v ≡ some name
    → (v ≡ text name) × (contains str_eq name names ≡ true)
in_texts-ok null names name h e = cc
in_texts-ok (boolean b) names name h e = cc
in_texts-ok (natural n) names name h e = cc
in_texts-ok (negative n) names name h e = cc
in_texts-ok (double n) names name h e = cc
in_texts-ok (text t) names name h e = ground (arith, h, e)
in_texts-ok (array vs) names name h e = cc
in_texts-ok (object fs) names name h e = cc

validate_kind-in_texts :
    (value : Fields)
    → validate_kind value ≡ ok tt
    → in_texts (get "type" value) event_types ≡ ok true
unfolding validate_kind
validate_kind-in_texts value h = elim (Result-cases (in_texts (get "type" value) event_types)) [
  | inr (e, f) ↦ absurd (ground (arith, f, h))
  | inl (true, k) ↦ k
  | inl (false, k) ↦ absurd (ground (arith, k, h))
]

reject-ok-or : (a b : Bool) (e : Fault) {u : Unit {0}} → reject (not a || not b) e ≡ ok u → b ≡ true
reject-ok-or true true e h = refl
reject-ok-or true false e h = cc
reject-ok-or false b e h = cc

or_raise-ok : {A : Type 0} (o : Option A) (e : Fault) {a : A} → or_raise o e ≡ ok a → o ≡ some a
or_raise-ok none e h = cc
or_raise-ok (some x) e h = ap some (ok-injective h)

reject-ok-le : (n m : ℕ) (e : Fault) {u : Unit {0}} → reject (ltb m n) e ≡ ok u → n ≤ m
reject-ok-le n m e h = ground arith

validate_head-ok :
    (value : Fields) (ride_id event_id device_id event_type : String)
    → validate_head value ride_id ≡ ok (event_id, device_id, event_type)
    → (is_text ride_id (get "rideId" value) ≡ true)
      × (matched is_identifier (get "id" value) "Event ID is invalid" ≡ ok event_id)
      × (matched is_identifier (get "deviceId" value) "Event device is invalid" ≡ ok device_id)
      × (validate_kind value ≡ ok tt)
      × (as_text (get "type" value) ≡ some event_type)
unfolding validate_head
validate_head-ok value ride_id event_id device_id event_type h =
    let version = get "schemaVersion" value in
    let (_, _, h1) =
      >>=-eq-ok
        (reject
          (not
            (same_set (keys value) (if equals_two version then event_fields else unsigned_fields)))
          (relay_service_error 400 "Event fields are invalid"))
        _ h in
    let (versioned, _, h2) = >>=-eq-ok (in_versions version) _ h1 in
    let (_, own, h3) =
      >>=-eq-ok
        (reject (not versioned || not (is_text ride_id (get "rideId" value)))
          (relay_service_error 400 "Event is invalid for this ride"))
        _ h2 in
    let (id, named, h4) =
      >>=-eq-ok (matched is_identifier (get "id" value) "Event ID is invalid") _ h3 in
    let (device, sent, h5) =
      >>=-eq-ok (matched is_identifier (get "deviceId" value) "Event device is invalid") _ h4 in
    let (_, kind, h6) = >>=-eq-ok (validate_kind value) _ h5 in
    let (type, typed, h7) = >>=-eq-ok (or_raise (as_text (get "type" value)) type_error) _ h6 in
    let (_, _, h8) =
      >>=-eq-ok
        (or_raise (as_object (get "payload" value))
          (relay_service_error 400 "Event payload must be an object"))
        _ h7 in
    let (_, _, h9) =
      >>=-eq-ok
        (reject (not (is_boolean (get "acknowledged" value)))
          (relay_service_error 400 "Event acknowledgement flag is invalid"))
        _ h8 in
    let (_, _, h10) =
      >>=-eq-ok (matched is_signature (get "signature" value) "Event signature is invalid") _ h9 in
    let (_, _, made) =
      >>=-eq-ok (if equals_two version then validate_authority value else ok tt) _ h10 in
    let same = ok-injective made in
    (
      reject-ok-or versioned (is_text ride_id (get "rideId" value)) _ own,
      named ∙ ap ok (ap (λ (t : String × String × String). t.0) same),
      sent ∙ ap ok (ap (λ (t : String × String × String). t.1) same),
      kind,
      or_raise-ok (as_text (get "type" value)) _ typed
          ∙ ap some (ap (λ (t : String × String × String). t.2) same),
    )

to_utc-ok :
    (parsed : Option Parsed) (name : String) (t : ℕ)
    → to_utc parsed name ≡ ok t
    → parsed ≡ some (aware t)
unfolding to_utc
to_utc-ok none name t h = cc
to_utc-ok (some (naive x)) name t h = cc
to_utc-ok (some unrepresentable) name t h = cc
to_utc-ok (some (aware x)) name t h = cc

module _ (env : Env) where
  parse_timestamp-ok :
      (v : Value) (name : String) (t : ℕ)
      → parse_timestamp env v name ≡ ok t
      → (s : String) × (v ≡ text s) × (env.fromisoformat (replace_z s) ≡ some (aware t))
  unfolding parse_timestamp
  parse_timestamp-ok (text s) name t h = elim (Bool-cases (ltb 40 (text_len s))) [
    | inl long ↦ absurd (err≢ok (rw long at h))
    | inr short ↦ (s, refl, to_utc-ok (env.fromisoformat (replace_z s)) name t (rw short at h))
  ]
  parse_timestamp-ok null name t h = cc
  parse_timestamp-ok (boolean b) name t h = cc
  parse_timestamp-ok (natural n) name t h = cc
  parse_timestamp-ok (negative n) name t h = cc
  parse_timestamp-ok (double n) name t h = cc
  parse_timestamp-ok (array vs) name t h = cc
  parse_timestamp-ok (object fs) name t h = cc

  parse_expiry-given :
      (v : Value) (at : Option ℕ)
      → (parse_timestamp env v "expiresAt" >>= λ t. ok (some t)) ≡ ok at
      → Expires env v at
  parse_expiry-given v at h =
      let (t, parsed, made) = >>=-eq-ok (parse_timestamp env v "expiresAt") _ h in
      let (s, is, reads) = parse_timestamp-ok v "expiresAt" t parsed in
      sometime s t is reads (sym (ok-injective made))

  parse_expiry-ok : (v : Value) (at : Option ℕ) → parse_expiry env v ≡ ok at → Expires env v at
  unfolding parse_expiry
  parse_expiry-ok null at h = never refl (sym (ok-injective h))
  parse_expiry-ok (text s) at h = parse_expiry-given (text s) at h
  parse_expiry-ok (boolean b) at h = parse_expiry-given (boolean b) at h
  parse_expiry-ok (natural n) at h = parse_expiry-given (natural n) at h
  parse_expiry-ok (negative n) at h = parse_expiry-given (negative n) at h
  parse_expiry-ok (double n) at h = parse_expiry-given (double n) at h
  parse_expiry-ok (array vs) at h = parse_expiry-given (array vs) at h
  parse_expiry-ok (object fs) at h = parse_expiry-given (object fs) at h

module _ (env : Env) (value : Fields) (ride_id : String) (now : ℕ) where
  validate_event-tail :
      (e : ValidatedEvent) (event_id device_id event_type : String)
      → validate_head value ride_id ≡ ok (event_id, device_id, event_type)
      → validate_event env value ride_id now ≡ ok e
      → (e.body ≡ value)
        × (e.event_id ≡ event_id)
        × (e.device_id ≡ device_id)
        × (e.event_type ≡ event_type)
        × (e.created_at ≤ now + minutes 10)
        × (length e.encoded ≤ env.settings.maximum_event_bytes)
        × (e.body_hash ≡ env.sha256 e.encoded)
        × (parse_timestamp env (get "createdAt" value) "createdAt" ≡ ok e.created_at)
        × (parse_expiry env (get "expiresAt" value) ≡ ok e.client_expires_at)
        × ((s : String) × (env.dumps_sorted (object value) ≡ some s) × (e.encoded ≡ utf8 s))
  unfolding validate_event
  validate_event-tail e event_id device_id event_type head h =
      let (t, known, h1) = >>=-eq-ok (validate_head value ride_id) _ h in
      let same : t ≡ (event_id, device_id, event_type) = ok-injective (sym known ∙ head) in
      let (at, parsed, h2) =
        >>=-eq-ok (parse_timestamp env (get "createdAt" value) "createdAt") _ h1 in
      let (_, timely, h3) =
        >>=-eq-ok
          (reject (ltb (now + minutes 10) at)
            (relay_service_error 400 "Event creation time is too far in the future"))
          _ h2 in
      let (expiry, expires, h4) = >>=-eq-ok (parse_expiry env (get "expiresAt" value)) _ h3 in
      let (_, _, h5) = >>=-eq-ok (validate_json_shape (object value) 0) _ h4 in
      let (dumped, dumps, h6) =
        >>=-eq-ok (or_raise (env.dumps_sorted (object value)) value_error) _ h5 in
      let (_, small, made) =
        >>=-eq-ok
          (reject (ltb env.settings.maximum_event_bytes (length (utf8 dumped)))
            (relay_service_error 413 (append "Event exceeds size limit: " t.0)))
          _ h6 in
      let is = sym (ok-injective made) in
      (
        ap (λ (x : ValidatedEvent). x.body) is,
        ap (λ (x : ValidatedEvent). x.event_id) is
            ∙ ap (λ (x : String × String × String). x.0) same,
        ap (λ (x : ValidatedEvent). x.device_id) is
            ∙ ap (λ (x : String × String × String). x.1) same,
        ap (λ (x : ValidatedEvent). x.event_type) is
            ∙ ap (λ (x : String × String × String). x.2) same,
        omega (
          arith,
          ap (λ (x : ValidatedEvent). x.created_at) is,
          reject-ok-le at (now + minutes 10) _ timely,
        ),
        omega (
          arith,
          ap (λ (x : ValidatedEvent). length x.encoded) is,
          reject-ok-le (length (utf8 dumped)) env.settings.maximum_event_bytes _ small,
        ),
        ap (λ (x : ValidatedEvent). x.body_hash) is
            ∙ ap env.sha256 (sym (ap (λ (x : ValidatedEvent). x.encoded) is)),
        parsed ∙ ap ok (sym (ap (λ (x : ValidatedEvent). x.created_at) is)),
        expires ∙ ap ok (sym (ap (λ (x : ValidatedEvent). x.client_expires_at) is)),
        (
          dumped,
          or_raise-ok (env.dumps_sorted (object value)) value_error dumps,
          ap (λ (x : ValidatedEvent). x.encoded) is,
        ),
      )

  -- An event that is validated for a ride is the value that was sent, names that ride, has
  -- well-formed identities and a known type, carries the instants that the value's createdAt and
  -- expiresAt parse to, was created at most ten minutes in the future, and carries the UTF-8 of the
  -- JSON of the whole value, which is within the size limit, and the hash of it.
  pub validate_event-IsSound :
      (e : ValidatedEvent)
      → validate_event env value ride_id now ≡ ok e
      → IsSound env value ride_id now e
  unfolding validate_event
  validate_event-IsSound e h =
      let ((event_id, device_id, event_type), head, _) =
        >>=-eq-ok (validate_head value ride_id) _ h in
      let (own, named, sent, kind, typed) =
        validate_head-ok value ride_id event_id device_id event_type head in
      let (
        body, same_id, same_device, same_type, timely, small, hashed, parsed, expires, encoding,
      ) =
        validate_event-tail e event_id device_id event_type head h in
      record {
        body = body;
        own = own;
        named =
            matched-ok is_identifier (get "id" value) "Event ID is invalid" e.event_id
              (rw same_id named);
        sent =
            matched-ok is_identifier (get "deviceId" value) "Event device is invalid" e.device_id
              (rw same_device sent);
        known =
            in_texts-ok (get "type" value) event_types e.event_type
              (validate_kind-in_texts value kind) (rw same_type typed);
        timely = timely;
        small = small;
        created = parse_timestamp-ok env (get "createdAt" value) "createdAt" e.created_at parsed;
        expires = parse_expiry-ok env (get "expiresAt" value) e.client_expires_at expires;
        encoding = encoding;
        hashed = hashed;
      }
