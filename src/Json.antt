-- ===== src/Json.antt =====
-- The values that Python's `json` reads, and how Python treats them: what an event's body and a
-- stored document are made of.
use balloon_crumbs.Prelude.{
  ℕ, String, Bool, if◌then◌else◌, suc, Option, List, some, str_eq, [], not, ◌==◌, true, ◌∷◌, false,
  none, contains, ◌/◌, ◌||◌, ◌^◌, ◌%◌,
}
use balloon_crumbs.Result.{Result, ok, err, type_error}

-- `negative n` is the integer -(n + 1), and a `double` is the bit pattern of a binary64.
mutual
  pub data Value : Type 0 where
    null : Value
    boolean : Bool → Value
    natural : ℕ → Value
    negative : ℕ → Value
    double : ℕ → Value
    text : String → Value
    array : Items → Value
    object : Fields → Value

  pub data Items : Type 0 where
    nil : Items
    cons : Value → Items → Items

  pub data Fields : Type 0 where
    end : Fields
    field : String → Value → Fields → Fields

-- `math.isfinite`: the exponent is not all ones.
unfoldable pub is_finite : ℕ → Bool
is_finite bits = not (bits / 2 ^ 52 % 2 ^ 11 == 2047)

-- `value.get(key)`, which is `None` for a missing key
abbrev pub get : String → Fields → Value
get k end = null
get k (field j v fs) = if str_eq j k then v else get k fs

abbrev pub keys : Fields → List String
keys end = []
keys (field k v fs) = k ∷ keys fs

abbrev pub length_items : Items → ℕ
length_items nil = 0
length_items (cons v vs) = suc (length_items vs)

abbrev pub as_text : Value → Option String
as_text (text s) = some s
as_text _ = none

abbrev pub as_object : Value → Option Fields
as_object (object fs) = some fs
as_object _ = none

abbrev pub is_boolean : Value → Bool
is_boolean (boolean _) = true
is_boolean _ = false

abbrev pub is_null : Value → Bool
is_null null = true
is_null _ = false

-- `value == s`
abbrev pub is_text : String → Value → Bool
is_text s (text t) = str_eq t s
is_text s _ = false

-- `value in texts`, which hashes `value`: a list or a dictionary raises `TypeError`.
abbrev pub in_texts : Value → List String → Result Bool
in_texts (text s) texts = ok (contains str_eq s texts)
in_texts (array _) texts = err type_error
in_texts (object _) texts = err type_error
in_texts _ texts = ok false

-- `value == 1` and `value == 2`: in Python 1.0 and `True` equal 1, and 2.0 equals 2.
abbrev pub equals_one : Value → Bool
equals_one (natural n) = n == 1
equals_one (boolean b) = b
equals_one (double bits) = bits == 0x3ff0000000000000
equals_one _ = false

abbrev pub equals_two : Value → Bool
equals_two (natural n) = n == 2
equals_two (double bits) = bits == 0x4000000000000000
equals_two _ = false

-- `value in {1, 2}`
abbrev pub in_versions : Value → Result Bool
in_versions (array _) = err type_error
in_versions (object _) = err type_error
in_versions v = ok (equals_one v || equals_two v)
