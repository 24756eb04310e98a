-- ===== src/Gpx.antt =====
-- The bounds on an imported route: apps/server/src/balloon_crumbs_server/gpx.py.
pub mod Counted
use balloon_crumbs.Prelude.{
  subst, ◌≡◌, refl, sym, ap, ◌∙◌, ◌≢◌, ◌↔◌, ◌⊎◌, inl, inr, ℕ, zero, suc, ◌+◌, ◌-◌, ◌*◌, ◌/◌, ◌%◌,
  ◌^◌, ◌≤◌, ◌<◌, min, max, String, Bool, true, false, not, ◌&&◌, ◌||◌, Option, none, some, List, [],
  ◌∷◌, ◌++◌, map, arith, str_eq, eq_iff, ltb, leb, ◌==◌, if◌then◌else◌, ==_iff, ltb→lt, leb→le,
  Bool-cases, Option-cases, is_some, length, take, drop, keep, find, all, any, sum_of, last_or,
  length-append, sum_of-append, sum_of-keep, length-keep-le, keep-append, count_of, contains,
}
use balloon_crumbs.Text.{codes, utf8}
use balloon_crumbs.Text.Parts.{split, format, decimal}
use balloon_crumbs.Env.{
  Env, Float, nan, infinite, finite, Element, element, Elements, no_elements, and_element, Parsing,
  parse_error, document,
}

-- what `validate_gpx` answers: the number of points, or the words of a `GpxValidationError`
pub data GpxValidity : Type 0 where
  gpx_validation_error : String → GpxValidity
  point_count : ℕ → GpxValidity

abbrev pub track_point_names : List String
track_point_names = "trkpt" ∷ "rtept" ∷ "wpt" ∷ []

abbrev pub tag_of : Element → String
tag_of (element tag attributes children) = tag

abbrev find_attribute : String → List (String × String) → Option String
find_attribute key [] = none
find_attribute key ((k, v) ∷ rest) = if str_eq k key then some v else find_attribute key rest

-- `element.get(attribute)`
abbrev pub attribute_of : String → Element → Option String
attribute_of key (element tag attributes children) = find_attribute key attributes

abbrev mutual
  -- `root.iter()`: an element and all below it, in the order of the document
  pub iter : Element → List Element
  iter (element tag attributes children) = element tag attributes children ∷ iter_all children

  pub iter_all : Elements → List Element
  iter_all no_elements = []
  iter_all (and_element e rest) = iter e ++ iter_all rest

-- `text in s`, on the codes of both
abbrev is_prefix : List ℕ → List ℕ → Bool
is_prefix [] cs = true
is_prefix (x ∷ xs) [] = false
is_prefix (x ∷ xs) (c ∷ cs) = x == c && is_prefix xs cs

unfoldable pub is_infix : List ℕ → List ℕ → Bool
is_infix xs [] = is_prefix xs []
is_infix xs (c ∷ cs) = is_prefix xs (c ∷ cs) || is_infix xs cs

-- `-bound <= value <= bound`, which no value compares to where it is not a number
unfoldable pub is_within : ℕ → Float → Bool
is_within bound nan = false
is_within bound infinite = false
is_within bound (finite negative numerator exponent) = leb numerator (bound * 2 ^ exponent)

abbrev pub nonempty : GpxValidity → GpxValidity
nonempty (gpx_validation_error words) = gpx_validation_error words
nonempty (point_count zero) =
    gpx_validation_error "The GPX file contains no tracks, routes, or waypoints."
nonempty (point_count (suc n)) = point_count (suc n)

module _ (env : Env) where
  -- `tag.rsplit("}", 1)[-1].lower()`
  unfoldable pub local_name : String → String
  local_name tag = env.lower (last_or "" (split b'}' tag))

  unfoldable pub is_coordinate : Option String → ℕ → Bool
  unfolding is_within
  is_coordinate none bound = false
  is_coordinate (some raw) bound = elim (env.float raw) [
    | none ↦ false
    | some value ↦ is_within bound value
  ]

  -- the error of the first test that an element fails
  unfoldable pub validate_coordinate : Element → String → ℕ → Option String
  unfolding is_coordinate local_name
  validate_coordinate e attribute bound =
      if is_coordinate (attribute_of attribute e) bound
      then none
      else some (
          format
            ("<" ∷ local_name (tag_of e) ∷ "> has an invalid " ∷ attribute ∷ " coordinate." ∷ []))

  unfoldable pub is_track_point : Element → Bool
  unfolding local_name
  is_track_point e = contains str_eq (local_name (tag_of e)) track_point_names

  -- the error of a point, after `count` points before it
  unfoldable pub point_error : ℕ → ℕ → Element → Option String
  unfolding validate_coordinate
  point_error maximum_points count e =
      if ltb maximum_points (count + 1)
      then some (
          format
            ("The GPX file exceeds the " ∷ decimal maximum_points ∷ " point import limit." ∷ []))
      else elim (validate_coordinate e "lat" 90) [
        | some words ↦ some words
        | none ↦ validate_coordinate e "lon" 180
      ]

  -- the loop over the elements, from a number of points on
  unfoldable pub count_points : ℕ → ℕ → List Element → GpxValidity
  count_points maximum_points count [] = point_count count
  count_points maximum_points count (e ∷ es) =
      let rest = count_points maximum_points (count + 1) es in
      let skipped = count_points maximum_points count es in
      if is_track_point e
      then elim (point_error maximum_points count e) [
        | some words ↦ gpx_validation_error words
        | none ↦ rest
      ]
      else skipped

  unfoldable pub validate_document : ℕ → Parsing → GpxValidity
  unfolding count_points
  validate_document maximum_points (parse_error words) =
      gpx_validation_error (format ("Invalid GPX XML: " ∷ words ∷ []))
  validate_document maximum_points (document root) =
      if not (str_eq (local_name (tag_of root)) "gpx")
      then gpx_validation_error "The document root must be <gpx>."
      else nonempty (count_points maximum_points 0 (iter root))

  unfoldable pub validate_gpx : String → ℕ → ℕ → GpxValidity
  unfolding validate_document
  validate_gpx text maximum_bytes maximum_points =
      if str_eq text ""
      then gpx_validation_error "The GPX file is empty."
      else if ltb maximum_bytes (length (utf8 text))
      then gpx_validation_error (
          format (
            "The GPX file exceeds the "
            ∷ decimal (maximum_bytes / (1024 * 1024))
            ∷ " MB import limit."
            ∷ []))
      else if is_infix (codes "<!DOCTYPE") (codes (env.upper text))
      then gpx_validation_error "GPX files containing a document type declaration are not accepted."
      else validate_document maximum_points (env.fromstring text)
