-- ===== src/Text/Parts.antt =====
-- `str.split`, `str.rstrip` of one character, concatenation and decimal printing.
use Prim.Native.Char.{code, Char}
use balloon_crumbs.Prelude.{
  ℕ, zero, suc, ◌/◌, ◌%◌, String, Bool, true, not, List, [], ◌∷◌, ◌≡◌, refl, arith, ltb, ◌==◌, all,
  if◌then◌else◌,
}
use balloon_crumbs.Text.{codes}

abbrev pub append : String → String → String
append String.[] t = t
append (String.◌∷◌ c s) t = String.◌∷◌ c (append s t)

-- the parts of an f-string
abbrev pub format : List String → String
format [] = ""
format (s ∷ rest) = append s (format rest)

-- `s.split(d)` for one character `d`; a text without `d` is its only part
unfoldable pub split_into : ℕ → String → String × List String
split_into d String.[] = ("", [])
split_into d (String.◌∷◌ c s) =
    let (word, rest) = split_into d s in
    if code c == d then ("", word ∷ rest) else (String.◌∷◌ c word, rest)

unfoldable pub split : ℕ → String → List String
unfolding split_into
split d s = let (word, rest) = split_into d s in word ∷ rest

-- `s.rstrip(d)` for one character `d`
unfoldable pub rstrip : ℕ → String → String
rstrip d String.[] = ""
rstrip d (String.◌∷◌ c s) =
    let rest = rstrip d s in
    elim rest [
      | String.[] ↦ if code c == d then "" else String.◌∷◌ c ""
      | String.◌∷◌ e r ↦ String.◌∷◌ c (String.◌∷◌ e r)
    ]

abbrev pub digit_text : ℕ → String
digit_text zero = "0"
digit_text (suc zero) = "1"
digit_text (suc (suc zero)) = "2"
digit_text (suc (suc (suc zero))) = "3"
digit_text (suc (suc (suc (suc zero)))) = "4"
digit_text (suc (suc (suc (suc (suc zero))))) = "5"
digit_text (suc (suc (suc (suc (suc (suc zero)))))) = "6"
digit_text (suc (suc (suc (suc (suc (suc (suc zero))))))) = "7"
digit_text (suc (suc (suc (suc (suc (suc (suc (suc zero)))))))) = "8"
digit_text _ = "9"

abbrev hex_digit : ℕ → String
hex_digit n =
    if ltb n 10
    then digit_text n
    else if n == 10
    then "a"
    else if n == 11
    then "b"
    else if n == 12
    then "c"
    else if n == 13
    then "d"
    else if n == 14
    then "e"
    else "f"

-- `bytes.hex`
unfoldable pub hex : List ℕ → String
hex [] = ""
hex (b ∷ bytes) = append (hex_digit (b / 16 % 16)) (append (hex_digit (b % 16)) (hex bytes))

-- `str(n)`; the number itself is fuel enough, since each round divides it by ten
unfoldable pub decimal_from : ℕ → ℕ → String
decimal_from zero n = digit_text n
decimal_from (suc fuel) n =
    let front = decimal_from fuel (n / 10) in
    if ltb n 10 then digit_text n else append front (digit_text (n % 10))

unfoldable pub decimal : ℕ → String
unfolding decimal_from
decimal n = decimal_from n n

abbrev pub lacks : ℕ → String → Bool
lacks d s = all (λ c. not (c == d)) (codes s)

pub split_into-append :
    (d : ℕ) (a b : String)
    → lacks d a ≡ true
    → split_into d (append a b) ≡ (append a (split_into d b).0, (split_into d b).1)
unfolding split_into
split_into-append d String.[] b h = refl
split_into-append d (String.◌∷◌ c a) b h = ground (arith, split_into-append d a b)

pub append-empty : (s : String) → append s "" ≡ s
append-empty String.[] = refl
append-empty (String.◌∷◌ c s) = rw (append-empty s)

-- A word without the separator, the separator and a rest split into the word and the parts of the
-- rest.
pub split-append :
    (d : ℕ) (a : String) (c : Char) (b : String)
    → lacks d a ≡ true
    → (code c == d) ≡ true
    → split d (append a (String.◌∷◌ c b)) ≡ a ∷ split d b
unfolding split split_into
split-append d a c b h k = rw (split_into-append d a (String.◌∷◌ c b) h) (rw (k, append-empty a))

pub split_word : (d : ℕ) (a : String) → lacks d a ≡ true → split d a ≡ a ∷ []
unfolding split split_into
split_word d String.[] h = refl
split_word d (String.◌∷◌ c a) h = let ih = split_word d a in ground (arith, ih)
