-- ===== src/Observer/Pilot/Sound.antt =====
-- The steps of the fold and the pilot (apps/server/src/balloon_crumbs_server/observer.py,
-- `_current_pilot_authority`).
use balloon_crumbs.Prelude.{
  subst, ◌≡◌, refl, sym, ap, ◌∙◌, inl, inr, ℕ, String, true, false, not, ◌||◌, Option, none, some,
  List, [], ◌∷◌, arith, str_eq, eq_iff, Bool-cases, is_some, contains,
}
use balloon_crumbs.Result.{ok, >>=-invert, ok-injective}
use balloon_crumbs.Json.{get, is_text, in_texts}
use balloon_crumbs.Env.{Env}
use balloon_crumbs.Observer.Signatures.{is_signed_by, event_time, device_id_matches}
use balloon_crumbs.Observer.Pilot.{
  Offer, Authority, Signed, key_of, put_key, is_the_text, enrol_created, enrol_joined, offer_of,
  add_offer, accepts_offer, accept_offer, offer_handover, accept_handover, rotation_challenge,
  revoke_in, rotate_to, enrol_unknown,
}
use balloon_crumbs.Crew.Authorised.{unset}

-- The pilot has a key and is not revoked, and nobody is revoked before there is a pilot.
pub record IsSound (a : Authority) : Type 0 where
  pub keyed : (id : String) → a.pilot_device_id ≡ some id → is_some (key_of id a.device_keys) ≡ true
  pub unrevoked : (id : String) → a.pilot_device_id ≡ some id → contains str_eq id a.revoked ≡ false
  pub vacant : a.pilot_device_id ≡ none → a.revoked ≡ []

-- what a step does: it keeps the pilot sound, and leaves none without a successor
abbrev pub IsKept : Authority → Authority → Type 0
IsKept a a' = IsSound a' × (is_some a.pilot_device_id ≡ true → is_some a'.pilot_device_id ≡ true)

some_injective : {A : Type 0} {a b : A} → ◌≡◌ {A = Option A} (some a) (some b) → a ≡ b
some_injective e = cc

true≢false : ¬ (true ≡ false)
true≢false h = cc

put_key-IsKept :
    (id d key : String) (ks : List (String × String))
    → is_some (key_of id ks) ≡ true
    → is_some (key_of id (put_key d key ks)) ≡ true
unfolding put_key
put_key-IsKept id d key [] h = cc
put_key-IsKept id d key ((e, k) ∷ ks) h = ground (arith, put_key-IsKept id d key ks)

put_key-own :
    (id key : String) (ks : List (String × String)) → is_some (key_of id (put_key id key ks)) ≡ true
unfolding put_key
put_key-own id key [] = ground (arith, eq_iff id id)
put_key-own id key ((e, k) ∷ ks) = ground (arith, put_key-own id key ks)

rekeyed-IsKept :
    (d key : String) (a : Authority)
    → IsSound a
    → IsKept a (record a { device_keys = put_key d key a.device_keys })
rekeyed-IsKept d key a s = (
  record {
    keyed = λ id h. put_key-IsKept id d key a.device_keys (s.keyed id h);
    unrevoked = s.unrevoked;
    vacant = s.vacant;
  },
  λ h. h,
)

enrol_created-IsKept :
    (root : String) (e : Signed) (a : Authority) → IsSound a → IsKept a (enrol_created root e a)
unfolding enrol_created
enrol_created-IsKept root e a s =
    elim (Bool-cases (
      is_some a.pilot_device_id
      || not (str_eq e.public_key root)
      || not (is_text "pilot" (get "flightRole" e.payload)))) [
        | inl refused ↦ rw refused (s, λ h. h)
        | inr enrolled ↦ rw enrolled (
          record {
            keyed = λ id h.
                subst
                  (λ x. is_some (key_of x (put_key e.device_id e.public_key a.device_keys)) ≡ true)
                  (some_injective h) (put_key-own e.device_id e.public_key a.device_keys);
            unrevoked = λ id h.
                subst (λ r. contains str_eq id r ≡ false)
                  (sym (s.vacant (unset a.pilot_device_id (ground (arith, enrolled))))) refl;
            vacant = λ h. cc;
          },
          λ h. refl,
        )
      ]

others_free :
    (target id : String) (pilot : Option String) (revoked : List String)
    → is_the_text target pilot ≡ false
    → pilot ≡ some id
    → contains str_eq id revoked ≡ false
    → contains str_eq id (target ∷ revoked) ≡ false
others_free target id none revoked other h free = cc
others_free target id (some p) revoked other h free =
    let same : p ≡ id = some_injective h in
    rw free (ground (arith, subst (λ x. str_eq x target ≡ false) same other))

pub revoke_in-IsKept :
    (t : Option String) (a : Authority)
    → is_some a.pilot_device_id ≡ true
    → IsSound a
    → IsKept a (revoke_in t a)
unfolding revoke_in
revoke_in-IsKept none a led s = (s, λ h. h)
revoke_in-IsKept (some target) a led s = elim (Bool-cases (is_the_text target a.pilot_device_id)) [
  | inl own ↦ rw own (s, λ h. h)
  | inr other ↦ rw other (
    record {
      keyed = s.keyed;
      unrevoked =
          λ id h. others_free target id a.pilot_device_id a.revoked other h (s.unrevoked id h);
      vacant = λ h. absurd (true≢false (sym led ∙ ap is_some h));
    },
    λ h. h,
  )
]

accept_offer-IsKept :
    (offer : Option Offer) (time : Option ℕ) (e : Signed) (a : Authority)
    → is_some (key_of e.device_id a.device_keys) ≡ true
    → contains str_eq e.device_id a.revoked ≡ false
    → IsSound a
    → IsKept a (accept_offer offer time e a)
unfolding accept_offer
accept_offer-IsKept none time e a known free s = (s, λ h. h)
accept_offer-IsKept (some offer) none e a known free s = (s, λ h. h)
accept_offer-IsKept (some offer) (some t) e a known free s =
    elim (Bool-cases (accepts_offer e a t offer)) [
      | inr no_match ↦ rw no_match (s, λ h. h)
      | inl accepted ↦ rw accepted (
        record {
          keyed =
              λ id h. subst (λ x. is_some (key_of x a.device_keys) ≡ true) (some_injective h) known;
          unrevoked =
              λ id h. subst (λ x. contains str_eq x a.revoked ≡ false) (some_injective h) free;
          vacant = λ h. cc;
        },
        λ h. refl,
      )
    ]

add_offer-IsKept : (o : Option Offer) (a : Authority) → IsSound a → IsKept a (add_offer o a)
unfolding add_offer
add_offer-IsKept none a s = (s, λ h. h)
add_offer-IsKept (some offer) a s =
    (record { keyed = s.keyed; unrevoked = s.unrevoked; vacant = s.vacant }, λ h. h)

module _ (env : Env) (ride_id root : String) where
  pub rotate_to-IsKept :
      (key signature : Option String) (e : Signed) (a : Authority)
      → IsSound a
      → IsKept a (rotate_to env ride_id root key signature e a)
  unfolding rotate_to
  rotate_to-IsKept none signature e a s = (s, λ h. h)
  rotate_to-IsKept (some key) none e a s = (s, λ h. h)
  rotate_to-IsKept (some key) (some signature) e a s =
      elim (Bool-cases
        (is_signed_by env key signature (rotation_challenge env ride_id root e key))) [
          | inl signed ↦ rw signed (rekeyed-IsKept e.device_id key a s)
          | inr forged ↦ rw forged (s, λ h. h)
        ]

  enrol_joined-IsKept :
      (e : Signed) (a a' : Authority) → IsSound a → enrol_joined e a ≡ ok a' → IsKept a a'
  unfolding enrol_joined
  enrol_joined-IsKept e a a' s h =
      >>=-invert (in_texts (get "flightRole" e.payload) ("pilot" ∷ "observer" ∷ [])) _ h
        (λ reserved _ h1. subst (IsKept a) (ok-injective h1) (elim (Bool-cases reserved) [
          | inl r ↦ rw r (s, λ x. x)
          | inr r ↦ rw r (rekeyed-IsKept e.device_id e.public_key a s)
        ]))

  pub enrol_unknown-IsKept :
      (known : Option String) (e : Signed) (a a' : Authority)
      → IsSound a
      → enrol_unknown env ride_id root known e a ≡ ok a'
      → IsKept a a'
  unfolding enrol_unknown
  enrol_unknown-IsKept (some key) e a a' s h = subst (IsKept a) (ok-injective h) (s, λ x. x)
  enrol_unknown-IsKept none e a a' s h =
      >>=-invert (device_id_matches env ride_id e.device_id e.public_key) _ h (λ matches _ h1.
        elim (Bool-cases matches) [
          | inr m ↦ subst (IsKept a) (ok-injective (rw m at h1)) (s, λ x. x)
          | inl m ↦ elim (Bool-cases (is_text "rideCreated" e.event_type)) [
            | inl c ↦
                subst (IsKept a) (ok-injective (rw (m, c) at h1)) (enrol_created-IsKept root e a s)
            | inr c ↦ enrol_joined-IsKept e a a' s (rw (m, c) at h1)
          ]
        ])

  pub offer_handover-IsKept :
      (e : Signed) (a a' : Authority)
      → IsSound a
      → offer_handover env ride_id root e a ≡ ok a'
      → IsKept a a'
  unfolding offer_handover
  offer_handover-IsKept e a a' s h = >>=-invert (event_time env e.created_at) _ h (λ offered _ h1.
      >>=-invert (event_time env (get "expiresAt" e.payload)) _ h1 (λ expires _ h2.
        subst (IsKept a) (ok-injective h2) (add_offer-IsKept (offer_of e a offered expires) a s)))

  pub accept_handover-IsKept :
      (e : Signed) (a a' : Authority)
      → is_some (key_of e.device_id a.device_keys) ≡ true
      → contains str_eq e.device_id a.revoked ≡ false
      → IsSound a
      → accept_handover env ride_id root e a ≡ ok a'
      → IsKept a a'
  unfolding accept_handover
  accept_handover-IsKept e a a' known free s h =
      >>=-invert (event_time env e.created_at) _ h (λ accepted _ h1.
        subst (IsKept a) (ok-injective h1) (accept_offer-IsKept _ accepted e a known free s))
