-- ===== src/Text.antt =====
-- Texts as the relay reads them: code points, the regular expressions at the head of
-- apps/server/src/balloon_crumbs_server/service.py, and the byte encodings of `str.encode`.
pub mod Parts
pub mod Strip
use Prim.Native.Char.{code}
use balloon_crumbs.Prelude.{
  ℕ, ◌+◌, ◌/◌, ◌%◌, String, Bool, true, false, ◌&&◌, ◌||◌, List, [], ◌∷◌, ◌++◌, ltb, leb, ◌==◌,
  length, all, if◌then◌else◌,
}
use balloon_crumbs.Result.{Result, ok, err, value_error}

-- The code points of a text; Python's `len` counts them.
abbrev pub codes : String → List ℕ
codes String.[] = []
codes (String.◌∷◌ c s) = code c ∷ codes s

abbrev pub text_len : String → ℕ
text_len s = length (codes s)

-- `[A-Za-z0-9]`
unfoldable pub is_alphanumeric : ℕ → Bool
is_alphanumeric c =
    (leb b'A' c && leb c b'Z') || (leb b'a' c && leb c b'z') || (leb b'0' c && leb c b'9')

-- `[A-Za-z0-9._:-]`
unfoldable pub is_identifier_tail : ℕ → Bool
unfolding is_alphanumeric
is_identifier_tail c = is_alphanumeric c || c == b'.' || c == b'_' || c == b':' || c == b'-'

-- `[A-Za-z0-9_-]`
unfoldable pub is_base64url : ℕ → Bool
unfolding is_alphanumeric
is_base64url c = is_alphanumeric c || c == b'_' || c == b'-'

-- `[0-9a-f]`
unfoldable pub is_lower_hex : ℕ → Bool
is_lower_hex c = (leb b'0' c && leb c b'9') || (leb b'a' c && leb c b'f')

unfoldable pub identifier_codes : List ℕ → Bool
unfolding is_identifier_tail
identifier_codes [] = false
identifier_codes (c ∷ cs) = is_alphanumeric c && all is_identifier_tail cs && leb (length cs) 127

-- `IDENTIFIER.fullmatch`
unfoldable pub is_identifier : String → Bool
unfolding identifier_codes
is_identifier s = identifier_codes (codes s)

-- a class of characters, repeated exactly `n` times
abbrev pub repeated : (ℕ → Bool) → ℕ → List ℕ → Bool
repeated p n cs = length cs == n && all p cs

-- a literal prefix, and then `p` on what follows
abbrev pub prefixed : List ℕ → (List ℕ → Bool) → List ℕ → Bool
prefixed [] p cs = p cs
prefixed (x ∷ xs) p [] = false
prefixed (x ∷ xs) p (c ∷ cs) = c == x && prefixed xs p cs

-- `TOKEN.fullmatch`
unfoldable pub is_token : String → Bool
unfolding is_base64url
is_token s = prefixed (codes "rr1_") (repeated is_base64url 43) (codes s)

-- `IDEMPOTENCY_KEY.fullmatch`
unfoldable pub is_idempotency_key : String → Bool
unfolding is_base64url
is_idempotency_key s = prefixed (codes "rr1-") (repeated is_base64url 43) (codes s)

-- `SIGNATURE.fullmatch`
unfoldable pub is_signature : String → Bool
unfolding is_lower_hex
is_signature s = repeated is_lower_hex 64 (codes s)

-- `re.fullmatch(r"[A-Za-z0-9_-]{n}", s)`
unfoldable pub is_base64url_text : ℕ → String → Bool
unfolding is_base64url
is_base64url_text n s = repeated is_base64url n (codes s)

-- `s.encode("ascii")` raises `UnicodeEncodeError`, a `ValueError`.
unfoldable pub ascii : String → Result (List ℕ)
ascii s = if all (λ c. ltb c 128) (codes s) then ok (codes s) else err value_error

-- `s.encode()`: UTF-8
unfoldable pub utf8_code : ℕ → List ℕ
utf8_code c =
    if ltb c 0x80
    then c ∷ []
    else if ltb c 0x800
    then (0xc0 + c / 64) ∷ (0x80 + c % 64) ∷ []
    else if ltb c 0x10000
    then (0xe0 + c / 4096) ∷ (0x80 + c / 64 % 64) ∷ (0x80 + c % 64) ∷ []
    else (0xf0 + c / 262144) ∷ (0x80 + c / 4096 % 64) ∷ (0x80 + c / 64 % 64) ∷ (0x80 + c % 64) ∷ []

abbrev utf8_codes : List ℕ → List ℕ
utf8_codes [] = []
utf8_codes (c ∷ cs) = utf8_code c ++ utf8_codes cs

unfoldable pub utf8 : String → List ℕ
unfolding utf8_code
utf8 s = utf8_codes (codes s)

-- equality of byte strings, which is what `hmac.compare_digest` answers for them
unfoldable pub compare_digest : List ℕ → List ℕ → Bool
compare_digest [] [] = true
compare_digest (x ∷ xs) (y ∷ ys) = x == y && compare_digest xs ys
compare_digest _ _ = false

-- `CREW_ROOM_ALIAS.fullmatch`
unfoldable pub is_crew_room_alias : String → Bool
is_crew_room_alias s =
    leb 5 (text_len s)
    && leb (text_len s) 12
    && all (λ c. (leb b'A' c && leb c b'Z') || (leb b'0' c && leb c b'9')) (codes s)

-- `CREW_ROOM_DEVICE_CREDENTIAL.fullmatch`
unfoldable pub is_device_credential : String → Bool
unfolding is_base64url
is_device_credential s = prefixed (codes "crd1_") (repeated is_base64url 43) (codes s)

-- `CREW_ROOM_INVITE_TOKEN.fullmatch`
unfoldable pub is_invite_token : String → Bool
unfolding is_base64url
is_invite_token s = prefixed (codes "cri1_") (repeated is_base64url 43) (codes s)
