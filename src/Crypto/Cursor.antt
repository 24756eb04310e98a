-- ===== src/Crypto/Cursor.antt =====
-- Cursors and what they are read as (apps/server/src/balloon_crumbs_server/crypto.py, `CursorCodec`).
use text.Mathlib.TextPositions.{eq_refl}
use balloon_crumbs.Prelude.{
  ℕ, zero, suc, ◌+◌, ◌*◌, ◌/◌, ◌%◌, ◌<◌, ◌≤◌, ◌≡◌, refl, ap, String, Bool, true, not, some, List,
  [], ◌∷◌, ◌++◌, arith, ltb, ◌==◌, length, all, eq_iff, inl, inr, Bool-cases, Option-cases,
  length-append, ◌∙◌,
}
use balloon_crumbs.Result.{ok}
use balloon_crumbs.Text.{codes, utf8}
use balloon_crumbs.Text.Parts.{
  append, lacks, digit_text, decimal_from, decimal, split, split-append, split_word, append-empty,
  format,
}
use balloon_crumbs.Env.{Env}
use balloon_crumbs.Crypto.{
  decode_cursor, decode_parts, encode_cursor, compare_text, int, isdigit, digits_value, base64url,
}

-- What the codec relies on: the Unicode database reads ASCII digits as their decimals, and
-- base64url texts are ASCII without a full stop.
pub record CodecLaws (env : Env) : Type 0 where
  pub digit : (d : ℕ) → d < 10 → env.is_digit (48 + d) ≡ true
  pub value : (d : ℕ) → d < 10 → env.decimal_value (48 + d) ≡ some d
  pub ascii : (b : List ℕ) → all (λ c. ltb c 128) (codes (base64url env b)) ≡ true
  pub dotless : (b : List ℕ) → lacks b'.' (base64url env b) ≡ true

module _ (env : Env) where
  decode_parts-issued :
      (ride_id cursor : String) (parts : List String) (n : ℕ)
      → decode_parts env ride_id cursor parts ≡ ok n
      → cursor ≡ encode_cursor env ride_id n
  unfolding decode_parts compare_text
  decode_parts-issued ride_id cursor (prefix ∷ number ∷ signature ∷ []) n h =
      ground (arith, eq_iff cursor (encode_cursor env ride_id n))
  decode_parts-issued ride_id cursor _ n h = ground arith

  -- An accepted cursor is the very one that the relay issued for that ride and sequence.
  pub decode_cursor-issued :
      (ride_id cursor : String) (n : ℕ)
      → decode_cursor env ride_id (some cursor) ≡ ok n
      → cursor ≡ encode_cursor env ride_id n
  unfolding decode_cursor
  decode_cursor-issued ride_id cursor n h =
      decode_parts-issued ride_id cursor (split b'.' cursor) n h

digit_text-codes : (n : ℕ) → n < 10 → codes (digit_text n) ≡ (48 + n) ∷ []
digit_text-codes zero h = refl
digit_text-codes (suc zero) h = refl
digit_text-codes (suc (suc zero)) h = refl
digit_text-codes (suc (suc (suc zero))) h = refl
digit_text-codes (suc (suc (suc (suc zero)))) h = refl
digit_text-codes (suc (suc (suc (suc (suc zero))))) h = refl
digit_text-codes (suc (suc (suc (suc (suc (suc zero)))))) h = refl
digit_text-codes (suc (suc (suc (suc (suc (suc (suc zero))))))) h = refl
digit_text-codes (suc (suc (suc (suc (suc (suc (suc (suc zero)))))))) h = refl
digit_text-codes (suc (suc (suc (suc (suc (suc (suc (suc (suc zero))))))))) h = refl
digit_text-codes (suc (suc (suc (suc (suc (suc (suc (suc (suc (suc n)))))))))) h =
    absurd (omega arith)

codes-append : (s t : String) → codes (append s t) ≡ codes s ++ codes t
codes-append String.[] t = refl
codes-append (String.◌∷◌ c s) t = rw (codes-append s t)

all-append :
    (p : ℕ → Bool) (xs ys : List ℕ) → all p xs ≡ true → all p ys ≡ true → all p (xs ++ ys) ≡ true
all-append p [] ys h k = k
all-append p (x ∷ xs) ys h k = ground (arith, all-append p xs ys)

-- every digit that `decimal` prints satisfies what the ten digits satisfy
decimal_from-all :
    (p : ℕ → Bool) (fuel n : ℕ)
    → n ≤ fuel
    → ((d : ℕ) → d < 10 → p (48 + d) ≡ true)
    → all p (codes (decimal_from fuel n)) ≡ true
unfolding decimal_from
decimal_from-all p zero n h each = rw (digit_text-codes n (omega arith)) (ground (arith, each n))
decimal_from-all p (suc fuel) n h each = elim (Bool-cases (ltb n 10)) [
  | inl small ↦ rw (small, digit_text-codes n (ground arith)) (ground (arith, each n))
  | inr large ↦
      rw (large, codes-append (decimal_from fuel (n / 10)) (digit_text (n % 10)))
        (all-append p (codes (decimal_from fuel (n / 10))) (codes (digit_text (n % 10)))
          (decimal_from-all p fuel (n / 10) (ground arith) each)
          (rw (digit_text-codes (n % 10) (omega arith)) (ground (arith, each (n % 10)))))
]

module _ (env : Env) (laws : CodecLaws env) where
  digits_value-append :
      (acc : ℕ) (xs : List ℕ) (d m : ℕ)
      → d < 10
      → digits_value env acc xs ≡ some m
      → digits_value env acc (xs ++ (48 + d) ∷ []) ≡ some (m * 10 + d)
  unfolding digits_value
  digits_value-append acc [] d m h e = rw (laws.value d h) (ground arith)
  digits_value-append acc (x ∷ xs) d m h e = elim (Option-cases (env.decimal_value x)) [
    | inl unread ↦ absurd (ground (arith, unread))
    | inr (v, read) ↦
        rw read (digits_value-append (acc * 10 + v) xs d m h (rw (read, digits_value) at e))
  ]

  decimal_from-value :
      (fuel n : ℕ) → n ≤ fuel → digits_value env 0 (codes (decimal_from fuel n)) ≡ some n
  unfolding decimal_from
  decimal_from-value zero n h = rw (digit_text-codes n (omega arith)) (
      digits_value-append 0 [] n 0 (omega arith) (unfold digits_value in refl)
      ∙ ap some (omega arith))
  decimal_from-value (suc fuel) n h = elim (Bool-cases (ltb n 10)) [
    | inl small ↦
        rw (small, digit_text-codes n (ground arith))
          (digits_value-append 0 [] n 0 (ground arith) (unfold digits_value in refl)
            ∙ ap some (omega arith))
    | inr large ↦
        rw
          (
            large,
            codes-append (decimal_from fuel (n / 10)) (digit_text (n % 10)),
            digit_text-codes (n % 10) (omega arith),
          )
          (digits_value-append 0 (codes (decimal_from fuel (n / 10))) (n % 10) (n / 10)
              (omega arith) (decimal_from-value fuel (n / 10) (ground arith))
            ∙ ap some (omega arith))
  ]

  int-decimal : (n : ℕ) → int env (decimal n) ≡ ok n
  unfolding int decimal
  int-decimal n = rw (decimal_from-value n n (omega arith))

  decimal-all :
      (p : ℕ → Bool) (n : ℕ)
      → ((d : ℕ) → d < 10 → p (48 + d) ≡ true)
      → all p (codes (decimal n)) ≡ true
  unfolding decimal
  decimal-all p n each = decimal_from-all p n n (omega arith) each

  decimal_from-nonempty : (fuel n : ℕ) → n ≤ fuel → 0 < length (codes (decimal_from fuel n))
  unfolding decimal_from
  decimal_from-nonempty zero n h = rw (digit_text-codes n (omega arith)) (omega arith)
  decimal_from-nonempty (suc fuel) n h = elim (Bool-cases (ltb n 10)) [
    | inl small ↦ rw (small, digit_text-codes n (ground arith)) (omega arith)
    | inr large ↦
        rw (large, codes-append (decimal_from fuel (n / 10)) (digit_text (n % 10)))
          (omega (
            arith,
            length-append {0} (codes (decimal_from fuel (n / 10))) (codes (digit_text (n % 10))),
            decimal_from-nonempty fuel (n / 10) (ground arith),
          ))
  ]

  isdigit-decimal : (n : ℕ) → isdigit env (decimal n) ≡ true
  unfolding isdigit decimal
  isdigit-decimal n =
      ground (arith, decimal-all env.is_digit n laws.digit, decimal_from-nonempty n n (omega arith))

  split-cursor :
      (n : ℕ) (signature : String)
      → lacks b'.' signature ≡ true
      → split b'.' (format ("rrc1" ∷ "." ∷ decimal n ∷ "." ∷ signature ∷ []))
        ≡ "rrc1" ∷ decimal n ∷ signature ∷ []
  split-cursor n signature h =
      split-append b'.' "rrc1" "." (append (decimal n) (append "." (append signature ""))) refl refl
      ∙ ap (λ r. "rrc1" ∷ r)
          (split-append b'.' (decimal n) "." (append signature "")
              (decimal-all (λ c. not (c == b'.')) n (λ d k. ground arith)) refl
            ∙ ap (λ r. decimal n ∷ r) (rw (append-empty signature) (split_word b'.' signature h)))

  all-codes-append :
      (p : ℕ → Bool) (s t : String)
      → all p (codes s) ≡ true
      → all p (codes t) ≡ true
      → all p (codes (append s t)) ≡ true
  all-codes-append p s t h k = rw (codes-append s t) (all-append p (codes s) (codes t) h k)

  encode_cursor-ascii :
      (ride_id : String) (n : ℕ) → all (λ c. ltb c 128) (codes (encode_cursor env ride_id n)) ≡ true
  unfolding encode_cursor
  encode_cursor-ascii ride_id n =
      let message = utf8 (format (ride_id ∷ "\n" ∷ decimal n ∷ [])) in
      let signature = base64url env (env.hmac_sha256 env.cursor_signing_key message) in
      all-codes-append (λ c. ltb c 128) (decimal n) (append "." (append signature ""))
        (decimal-all (λ c. ltb c 128) n (λ d k. ground arith))
        (rw (append-empty signature) (laws.ascii (env.hmac_sha256 env.cursor_signing_key message)))

  decode_parts-encode :
      (ride_id signature : String) (n : ℕ)
      → decode_parts env ride_id (encode_cursor env ride_id n) ("rrc1" ∷ decimal n ∷ signature ∷ [])
        ≡ ok n
  unfolding decode_parts compare_text
  decode_parts-encode ride_id signature n = rw (
    isdigit-decimal n,
    int-decimal n,
    encode_cursor-ascii ride_id n,
    eq_refl (encode_cursor env ride_id n),
  )

  -- A cursor decodes to the sequence that it was made from, for the ride that it was made for, if
  -- the laws of its primitives hold.
  pub decode-encode :
      (ride_id : String) (n : ℕ)
      → decode_cursor env ride_id (some (encode_cursor env ride_id n)) ≡ ok n
  unfolding decode_cursor encode_cursor
  decode-encode ride_id n =
      let message = utf8 (format (ride_id ∷ "\n" ∷ decimal n ∷ [])) in
      let signature = base64url env (env.hmac_sha256 env.cursor_signing_key message) in
      rw (split-cursor n signature (laws.dotless (env.hmac_sha256 env.cursor_signing_key message)))
        (decode_parts-encode ride_id signature n)
