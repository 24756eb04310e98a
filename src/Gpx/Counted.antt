-- ===== src/Gpx/Counted.antt =====
-- What an accepted route is (apps/server/src/balloon_crumbs_server/gpx.py).
use balloon_crumbs.Prelude.{
  ◌≡◌, refl, ap, ◌∙◌, ◌↔◌, inl, inr, ℕ, zero, suc, ◌+◌, ◌≤◌, String, Bool, true, false, not, ◌&&◌,
  ◌||◌, none, List, [], ◌∷◌, arith, str_eq, eq_iff, ltb, leb, Bool-cases, Option-cases, is_some,
  length, all, count_of,
}
use balloon_crumbs.Env.{Env, Element, Parsing, parse_error, document}
use balloon_crumbs.Text.{codes, utf8}
use balloon_crumbs.Gpx.{
  GpxValidity, gpx_validation_error, point_count, tag_of, attribute_of, iter, is_infix, local_name,
  is_coordinate, validate_coordinate, is_track_point, count_points, point_error, nonempty,
  validate_document, validate_gpx,
}

error≢count : {words : String} {n : ℕ} → ¬ (gpx_validation_error words ≡ point_count n)
error≢count e = cc

point_count-injective : {m n : ℕ} → point_count m ≡ point_count n → m ≡ n
point_count-injective h = cc

nonempty-count :
    (v : GpxValidity) (n : ℕ) → nonempty v ≡ point_count n → (v ≡ point_count n) × (1 ≤ n)
nonempty-count (gpx_validation_error words) n h = cc
nonempty-count (point_count zero) n h = absurd (error≢count h)
nonempty-count (point_count (suc m)) n h =
    let same : suc m ≡ n = point_count-injective h in (h, omega (arith, same))

nonempty-keeps : (n : ℕ) → 1 ≤ n → nonempty (point_count n) ≡ point_count n
nonempty-keeps zero h = absurd (omega (arith, h))
nonempty-keeps (suc n) h = refl

module _ (env : Env) where
  -- a point with both coordinates in range
  unfoldable pub is_sound_point : Element → Bool
  is_sound_point e =
      is_coordinate env (attribute_of "lat" e) 90 && is_coordinate env (attribute_of "lon" e) 180

  -- an element that is a point has its coordinates in range
  abbrev pub is_sound : Element → Bool
  is_sound e = not (is_track_point env e) || is_sound_point e

  abbrev pub points : List Element → ℕ
  points es = count_of (is_track_point env) es

  validate_coordinate-none :
      (e : Element) (attribute : String) (bound : ℕ)
      → is_coordinate env (attribute_of attribute e) bound ≡ true
      → validate_coordinate env e attribute bound ≡ none
  unfolding validate_coordinate
  validate_coordinate-none e attribute bound h = rw h refl

  validate_coordinate-some :
      (e : Element) (attribute : String) (bound : ℕ)
      → is_coordinate env (attribute_of attribute e) bound ≡ false
      → is_some (validate_coordinate env e attribute bound) ≡ true
  unfolding validate_coordinate
  validate_coordinate-some e attribute bound h = rw h refl

  -- A point passes exactly where it is one more within the limit, with its coordinates in range.
  point_error-eq :
      (maximum count : ℕ) (e : Element)
      → is_some (point_error env maximum count e)
        ≡ not (leb (count + 1) maximum && is_sound_point e)
  unfolding point_error is_sound_point
  point_error-eq maximum count e = ground (
    arith,
    validate_coordinate-none e "lat" 90,
    validate_coordinate-some e "lat" 90,
    validate_coordinate-none e "lon" 180,
    validate_coordinate-some e "lon" 180,
  )

  count_points_sound :
      (maximum count n : ℕ) (es : List Element)
      → count ≤ maximum
      → count_points env maximum count es ≡ point_count n
      → (n ≡ count + points es) × (n ≤ maximum) × (all is_sound es ≡ true)
  unfolding count_points
  count_points_sound maximum count n [] b h =
      let same : count ≡ n = point_count-injective h in
      (omega (arith, same), omega (arith, same), refl)
  count_points_sound maximum count n (e ∷ es) b h = elim (Bool-cases (is_track_point env e)) [
    | inr skipped ↦
        let (same, bound, sound) = count_points_sound maximum count n es b (rw skipped at h) in
        (ground (arith, same, skipped), bound, ground (arith, sound, skipped))
    | inl point ↦ elim (Option-cases (point_error env maximum count e)) [
      | inr (words, failed) ↦ absurd (error≢count (rw (point, failed) at h))
      | inl passed ↦
          let fits : (leb (count + 1) maximum && is_sound_point e) ≡ true =
            ground (arith, point_error-eq maximum count e, passed) in
          let (same, bound, sound) =
            count_points_sound maximum (count + 1) n es (ground (arith, fits))
              (rw (point, passed) at h) in
          (ground (arith, same, point), bound, ground (arith, sound, point, fits))
    ]
  ]

  count_points_complete :
      (maximum count : ℕ) (es : List Element)
      → count + points es ≤ maximum
      → all is_sound es ≡ true
      → count_points env maximum count es ≡ point_count (count + points es)
  unfolding count_points
  count_points_complete maximum count [] b h = ap point_count (omega arith)
  count_points_complete maximum count (e ∷ es) b h = elim (Bool-cases (is_track_point env e)) [
    | inr skipped ↦
        let rest : count_points env maximum count es ≡ point_count (count + points es) =
          count_points_complete maximum count es (ground (arith, skipped)) (ground (arith)) in
        rw (skipped, rest) refl
    | inl point ↦ elim (Option-cases (point_error env maximum count e)) [
      | inr (words, failed) ↦ absurd (ground (arith, point_error-eq maximum count e, point, failed))
      | inl passed ↦
          let rest : count_points env maximum (count + 1) es ≡ point_count (count + 1 + points es) =
            count_points_complete maximum (count + 1) es (ground (arith, point)) (ground (arith)) in
          rw (point, passed, rest) (ap point_count (omega arith))
    ]
  ]

  -- what a route is accepted for, with its number of points
  abbrev pub IsAcceptable : String → ℕ → ℕ → ℕ → Type 0
  IsAcceptable text maximum_bytes maximum_points n =
      (str_eq text "" ≡ false)
      × (length (utf8 text) ≤ maximum_bytes)
      × (is_infix (codes "<!DOCTYPE") (codes (env.upper text)) ≡ false)
      × ((root : Element) × (env.fromstring text ≡ document root)
          × (local_name env (tag_of root) ≡ "gpx")
          × (n ≡ points (iter root))
          × (1 ≤ n)
          × (n ≤ maximum_points)
          × (all is_sound (iter root) ≡ true))

  validate_document_sound :
      (maximum_points n : ℕ) (p : Parsing)
      → validate_document env maximum_points p ≡ point_count n
      → (root : Element) × (p ≡ document root)
        × (local_name env (tag_of root) ≡ "gpx")
        × (n ≡ points (iter root))
        × (1 ≤ n)
        × (n ≤ maximum_points)
        × (all is_sound (iter root) ≡ true)
  unfolding validate_document
  validate_document_sound maximum_points n (parse_error words) h = cc
  validate_document_sound maximum_points n (document root) h =
      elim (Bool-cases (str_eq (local_name env (tag_of root)) "gpx")) [
        | inr other ↦ absurd (error≢count (rw other at h))
        | inl named ↦
            let (counted, some_points) =
              nonempty-count (count_points env maximum_points 0 (iter root)) n (rw named at h) in
            let (same, bound, sound) =
              count_points_sound maximum_points 0 n (iter root) (omega arith) counted in
            (
              root,
              refl,
              (eq_iff (local_name env (tag_of root)) "gpx").0 named,
              omega (arith, same),
              some_points,
              bound,
              sound,
            )
      ]

  validate_document_complete :
      (maximum_points n : ℕ) (root : Element)
      → local_name env (tag_of root) ≡ "gpx"
      → n ≡ points (iter root)
      → 1 ≤ n
      → n ≤ maximum_points
      → all is_sound (iter root) ≡ true
      → validate_document env maximum_points (document root) ≡ point_count n
  unfolding validate_document
  validate_document_complete maximum_points n root named same some_points bound sound =
      let counted : count_points env maximum_points 0 (iter root) ≡ point_count n =
        count_points_complete maximum_points 0 (iter root) (omega (arith, same, bound)) sound
        ∙ ap point_count (omega (arith, same)) in
      let is_gpx : str_eq (local_name env (tag_of root)) "gpx" ≡ true =
        (eq_iff (local_name env (tag_of root)) "gpx").1 named in
      rw (is_gpx, counted) (nonempty-keeps n some_points)

  -- A route is accepted with a number of points exactly if it is not empty, is within the limit of
  -- bytes, declares no document type, parses to a document whose root is a gpx element, and has
  -- that number of points, which is at least one and within the limit, with the coordinates of each in range.
  pub validate_gpx-IsAcceptable :
      (text : String) (maximum_bytes maximum_points n : ℕ)
      → (validate_gpx env text maximum_bytes maximum_points ≡ point_count n)
        ↔ IsAcceptable text maximum_bytes maximum_points n
  unfolding validate_gpx
  validate_gpx-IsAcceptable text maximum_bytes maximum_points n = (
    λ h. elim (Bool-cases (str_eq text "")) [
      | inl blank ↦ absurd (error≢count (rw blank at h))
      | inr full ↦ elim (Bool-cases (ltb maximum_bytes (length (utf8 text)))) [
        | inl large ↦ absurd (error≢count (rw (full, large) at h))
        | inr small ↦ elim (Bool-cases (is_infix (codes "<!DOCTYPE") (codes (env.upper text)))) [
          | inl typed ↦ absurd (error≢count (rw (full, small, typed) at h))
          | inr plain ↦ (
            full,
            ground (arith, small),
            plain,
            validate_document_sound maximum_points n (env.fromstring text)
                (rw (full, small, plain) at h),
          )
        ]
      ]
    ],
    λ (full, small, plain, (root, parsed, named, same, some_points, bound, sound)).
        let fits : ltb maximum_bytes (length (utf8 text)) ≡ false = ground (arith, small) in
        rw (full, fits, plain, parsed)
          (validate_document_complete maximum_points n root named same some_points bound sound),
  )
