-- ===== src/Observer/Pilot/Remains.antt =====
-- A flight and its pilot (apps/server/src/balloon_crumbs_server/observer.py,
-- `_current_pilot_authority`).
use balloon_crumbs.Prelude.{
  subst, ◌≡◌, refl, sym, ◌∙◌, inl, inr, String, true, false, not, ◌&&◌, ◌||◌, Option, none, some,
  List, [], ◌∷◌, arith, str_eq, Bool-cases, is_some, contains,
}
use balloon_crumbs.Result.{
  relay_service_error, value_error, type_error, overflow_error, invalid_tag, integrity_error,
  Result, ok, err, >>=-invert, ok-injective,
}
use balloon_crumbs.Json.{
  Value, null, boolean, natural, negative, double, text, array, object, Fields, get, as_text,
  is_text, in_texts,
}
use balloon_crumbs.Models.{StoredEvent}
use balloon_crumbs.Env.{Env}
use balloon_crumbs.Crypto.{decrypt_json}
use balloon_crumbs.Sync.Store.{event_aad}
use balloon_crumbs.Observer.Signatures.{verify_event_signature}
use balloon_crumbs.Observer.Pilot.{
  Authority, no_authority, Signed, key_of, is_the_text, revoke_target, rotate_key, enrol_device,
  act, apply_signed, signed_of, apply_body, apply_row, apply_rows, pilot_of, apply_valid,
  pilot_from, with_key,
}
use balloon_crumbs.Observer.Pilot.Sound.{
  IsSound, IsKept, enrol_unknown-IsKept, rotate_to-IsKept, revoke_in-IsKept, offer_handover-IsKept,
  accept_handover-IsKept,
}

known_key : (key : String) (o : Option String) → is_the_text key o ≡ true → is_some o ≡ true
known_key key none h = cc
known_key key (some k) h = refl

with_key-led :
    (id : String) (key : Option String)
    → is_some key ≡ true
    → is_some (with_key id false key) ≡ true
unfolding with_key
with_key-led id none h = cc
with_key-led id (some key) h = refl

pilot_from-led :
    (p : Option String) (a : Authority)
    → IsSound a
    → a.pilot_device_id ≡ p
    → is_some (pilot_from p a) ≡ is_some p
unfolding pilot_from
pilot_from-led none a s h = refl
pilot_from-led (some id) a s h =
    rw (s.unrevoked id h) (with_key-led id (key_of id a.device_keys) (s.keyed id h))

-- A sound authority has a pilot to answer exactly where it names one.
pilot_of-led : (a : Authority) → IsSound a → is_some (pilot_of a) ≡ is_some a.pilot_device_id
unfolding pilot_of
pilot_of-led a s = pilot_from-led a.pilot_device_id a s refl

no_authority-IsSound : IsSound no_authority
no_authority-IsSound = record { keyed = λ id h. cc; unrevoked = λ id h. cc; vacant = λ h. refl }

module _ (env : Env) (ride_id root : String) where
  act-IsKept :
      (e : Signed) (a a' : Authority) → IsSound a → act env ride_id root e a ≡ ok a' → IsKept a a'
  unfolding act rotate_key revoke_target
  act-IsKept e a a' s h =
      elim (Bool-cases (
        not (is_the_text e.public_key (key_of e.device_id a.device_keys))
        || contains str_eq e.device_id a.revoked)) [
          | inl barred ↦ subst (IsKept a) (ok-injective (rw barred at h)) (s, λ x. x)
          | inr may ↦ elim (Bool-cases (is_text "deviceAuthorityRotated" e.event_type)) [
            | inl r ↦ subst (IsKept a) (ok-injective (rw (may, r) at h)) (
                rotate_to-IsKept env ride_id root (as_text (get "newPublicKey" e.payload))
                  (as_text (get "newDeviceSignature" e.payload)) e a s)
            | inr r ↦
                elim (Bool-cases (
                  is_text "deviceAuthorityRevoked" e.event_type
                  && is_the_text e.device_id a.pilot_device_id)) [
                    | inl v ↦ subst (IsKept a) (ok-injective (rw (may, r, v) at h)) (
                        revoke_in-IsKept (as_text (get "targetDeviceId" e.payload)) a
                          (known_key e.device_id a.pilot_device_id (ground (arith, v))) s)
                    | inr v ↦
                        elim (Bool-cases (
                          is_text "pilotHandoverOffered" e.event_type
                          && is_the_text e.device_id a.pilot_device_id)) [
                            | inl o ↦
                                offer_handover-IsKept env ride_id root e a a' s
                                  (rw (may, r, v, o) at h)
                            | inr o ↦
                                elim (Bool-cases (is_text "pilotHandoverAccepted" e.event_type)) [
                                  | inl c ↦
                                      accept_handover-IsKept env ride_id root e a a'
                                        (known_key e.public_key (key_of e.device_id a.device_keys)
                                          (ground (arith, may)))
                                        (ground (arith, may)) s (rw (may, r, v, o, c) at h)
                                  | inr c ↦
                                      subst (IsKept a) (ok-injective (rw (may, r, v, o, c) at h))
                                        (s, λ x. x)
                                ]
                          ]
                  ]
          ]
        ]

  apply_signed-IsKept :
      (e : Signed) (a a' : Authority)
      → IsSound a
      → apply_signed env ride_id root e a ≡ ok a'
      → IsKept a a'
  unfolding apply_signed enrol_device
  apply_signed-IsKept e a a' s h =
      >>=-invert (in_texts e.event_type ("rideCreated" ∷ "riderJoined" ∷ [])) _ h (λ enrols _ h1.
        elim (Bool-cases enrols) [
          | inl x ↦
              enrol_unknown-IsKept env ride_id root (key_of e.device_id a.device_keys) e a a' s
                (rw x at h1)
          | inr x ↦ act-IsKept e a a' s (rw x at h1)
        ])

  apply_valid-IsKept :
      (o : Option Signed) (body : Fields) (a a' : Authority)
      → IsSound a
      → apply_valid env ride_id root o body a ≡ ok a'
      → IsKept a a'
  unfolding apply_valid
  apply_valid-IsKept none body a a' s h = subst (IsKept a) (ok-injective h) (s, λ x. x)
  apply_valid-IsKept (some e) body a a' s h =
      >>=-invert (verify_event_signature env body) _ h (λ valid _ h1. elim (Bool-cases valid) [
        | inl x ↦ apply_signed-IsKept e a a' s (rw x at h1)
        | inr x ↦ subst (IsKept a) (ok-injective (rw x at h1)) (s, λ y. y)
      ])

  same-IsKept :
      (a a' : Authority) → IsSound a → ◌≡◌ {A = Result Authority} (ok a) (ok a') → IsKept a a'
  same-IsKept a a' s h = subst (IsKept a) (ok-injective h) (s, λ x. x)

  apply_body-IsKept :
      (r : Result Value) (a a' : Authority)
      → IsSound a
      → apply_body env ride_id root r a ≡ ok a'
      → IsKept a a'
  unfolding apply_body
  apply_body-IsKept (ok (object body)) a a' s h =
      apply_valid-IsKept (signed_of env ride_id root body) body a a' s h
  apply_body-IsKept (ok null) a a' s h = same-IsKept a a' s h
  apply_body-IsKept (ok (boolean b)) a a' s h = same-IsKept a a' s h
  apply_body-IsKept (ok (natural n)) a a' s h = same-IsKept a a' s h
  apply_body-IsKept (ok (negative n)) a a' s h = same-IsKept a a' s h
  apply_body-IsKept (ok (double n)) a a' s h = same-IsKept a a' s h
  apply_body-IsKept (ok (text t)) a a' s h = same-IsKept a a' s h
  apply_body-IsKept (ok (array vs)) a a' s h = same-IsKept a a' s h
  apply_body-IsKept (err value_error) a a' s h = same-IsKept a a' s h
  apply_body-IsKept (err type_error) a a' s h = cc
  apply_body-IsKept (err overflow_error) a a' s h = cc
  apply_body-IsKept (err invalid_tag) a a' s h = cc
  apply_body-IsKept (err integrity_error) a a' s h = cc
  apply_body-IsKept (err (relay_service_error n w)) a a' s h = cc

  apply_rows-IsKept :
      (rows : List StoredEvent) (a a' : Authority)
      → IsSound a
      → apply_rows env ride_id root rows a ≡ ok a'
      → IsKept a a'
  unfolding apply_rows apply_row
  apply_rows-IsKept [] a a' s h = same-IsKept a a' s h
  apply_rows-IsKept (row ∷ rows) a a' s h =
      >>=-invert
        (apply_body env ride_id root
          (decrypt_json env row.body_ciphertext (event_aad ride_id row.event_id)) a)
        _ h
        (λ b first rest.
          let (s1, led) =
            apply_body-IsKept
              (decrypt_json env row.body_ciphertext (event_aad ride_id row.event_id)) a b s first in
          let (s2, later) = apply_rows-IsKept rows b a' s1 rest in (s2, λ x. later (led x)))

  -- A flight that has a pilot after some of its events has one after any further events that can be
  -- read: nothing that devices send takes the pilot away without a successor.
  pub apply_rows-remains :
      (rows later : List StoredEvent) (a b : Authority)
      → apply_rows env ride_id root rows no_authority ≡ ok a
      → is_some (pilot_of a) ≡ true
      → apply_rows env ride_id root later a ≡ ok b
      → is_some (pilot_of b) ≡ true
  apply_rows-remains rows later a b first led rest =
      let (s1, _) = apply_rows-IsKept rows no_authority a no_authority-IsSound first in
      let (s2, kept) = apply_rows-IsKept later a b s1 rest in
      pilot_of-led b s2 ∙ kept (sym (pilot_of-led a s1) ∙ led)
