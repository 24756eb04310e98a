-- ===== src/Tests/Seals.antt =====
-- Primitives that satisfy the laws of the cipher: the one document that is ever written is that
-- of a registered ride code.
use balloon_crumbs.Prelude.{
  ◌≡◌, refl, sym, ap, ℕ, ◌+◌, String, Bool, true, false, ◌&&◌, Option, none, some, List, [], ◌++◌,
  arith, str_eq, eq_iff, if◌then◌else◌, length, take, length-append,
}
use balloon_crumbs.Result.{ok}
use balloon_crumbs.Json.{
  Value, null, boolean, natural, negative, double, text, array, object, Fields, end, field,
}
use balloon_crumbs.Text.{utf8}
use balloon_crumbs.Env.{Env}
use balloon_crumbs.Crypto.Sealed.{SealLaws, decrypt-encrypt}
use balloon_crumbs.Crypto.{encrypt_json, decrypt_json}
use balloon_crumbs.Tests.Sample.{env, zeros}

abbrev pub secret : Value
secret = object (
    field "inviteSecret" (text "0123456789abcdef")
      (field "resolveToken" (text "fedcba9876543210") end))

abbrev pub is_the : String → Value → Bool
is_the s (text t) = str_eq t s
is_the s _ = false

abbrev is_end : Fields → Bool
is_end end = true
is_end (field k v fs) = false

abbrev is_tail : Fields → Bool
is_tail end = false
is_tail (field k v fs) = str_eq k "resolveToken" && is_the "fedcba9876543210" v && is_end fs

abbrev is_body : Fields → Bool
is_body end = false
is_body (field k v fs) = str_eq k "inviteSecret" && is_the "0123456789abcdef" v && is_tail fs

abbrev is_secret : Value → Bool
is_secret (object fs) = is_body fs
is_secret _ = false

pub is_the-eq : (s : String) (v : Value) → is_the s v ≡ true → v ≡ text s
is_the-eq s null h = cc
is_the-eq s (boolean b) h = cc
is_the-eq s (natural n) h = cc
is_the-eq s (negative n) h = cc
is_the-eq s (double n) h = cc
is_the-eq s (text t) h = ap text ((eq_iff t s).0 h)
is_the-eq s (array vs) h = cc
is_the-eq s (object fs) h = cc

is_end-eq : (fs : Fields) → is_end fs ≡ true → fs ≡ end
is_end-eq end h = refl
is_end-eq (field k v fs) h = cc

is_tail-eq :
    (fs : Fields) → is_tail fs ≡ true → fs ≡ field "resolveToken" (text "fedcba9876543210") end
is_tail-eq end h = cc
is_tail-eq (field k v fs) h =
    ground (arith, eq_iff k "resolveToken", is_the-eq "fedcba9876543210" v, is_end-eq fs)

is_body-eq :
    (fs : Fields)
    → is_body fs ≡ true
    → fs
      ≡ field "inviteSecret"
          (text "0123456789abcdef")
          (field "resolveToken" (text "fedcba9876543210") end)
is_body-eq end h = cc
is_body-eq (field k v fs) h =
    ground (arith, eq_iff k "inviteSecret", is_the-eq "0123456789abcdef" v, is_tail-eq fs)

is_secret-eq : (v : Value) → is_secret v ≡ true → v ≡ secret
is_secret-eq null h = cc
is_secret-eq (boolean b) h = cc
is_secret-eq (natural n) h = cc
is_secret-eq (negative n) h = cc
is_secret-eq (double n) h = cc
is_secret-eq (text t) h = cc
is_secret-eq (array vs) h = cc
is_secret-eq (object fs) h = ap object (is_body-eq fs h)

abbrev write_secret : Value → Option String
write_secret v = if is_secret v then some "{}" else none

abbrev pub sealing_env : Env
sealing_env = record env { dumps = write_secret; loads = λ b. some secret }

pub length-sealed : (p : List ℕ) → length (zeros ++ p) ≡ length p + 16
length-sealed p = omega (arith, length-append zeros p)

write_secret-eq : (v : Value) (s : String) → write_secret v ≡ some s → (v ≡ secret) × (s ≡ "{}")
write_secret-eq v s h = ground (arith, is_secret-eq v)

pub sealing_env-SealLaws : SealLaws sealing_env
unfolding utf8
sealing_env-SealLaws = record {
  opens = λ key nonce plaintext aad. refl;
  tagged = λ key nonce plaintext aad. length-sealed plaintext;
  reads = λ v s h. ap some (sym (write_secret-eq v s h).0);
  written = λ v s h. rw (write_secret-eq v s h).1 (omega arith);
}

abbrev pub nonce : List ℕ
nonce = take 12 zeros

-- The sealed secret opens again.
decrypt-encrypt_example : decrypt_json sealing_env (nonce ++ zeros ++ utf8 "{}") [] ≡ ok secret
unfolding encrypt_json utf8
decrypt-encrypt_example = decrypt-encrypt sealing_env sealing_env-SealLaws nonce [] secret refl refl
