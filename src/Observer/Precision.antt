-- ===== src/Observer/Precision.antt =====
-- What a grant of reduced precision stores (apps/server/src/balloon_crumbs_server/observer.py,
-- `_reduce_snapshot_precision`): one position.
use balloon_crumbs.Prelude.{
  subst, eq_iff, ◌≡◌, refl, sym, ap, ◌∙◌, inl, inr, ℕ, String, true, false, Bool-cases, none,
  str_eq, eq_refl, if◌then◌else◌, ◌⊎◌, Bool, ◌&&◌,
}
use balloon_crumbs.Result.{ok, >>=-invert, ok-injective}
use balloon_crumbs.Json.{
  Value, null, boolean, natural, negative, double, text, array, object, Fields, end, field, get,
  as_object,
}
use balloon_crumbs.Observer.Snapshot.{
  Numbers, is_number, least_accuracy, put, get_or, has_coordinates, rounded, larger, reduce_fields,
  reduce_position,
}

pub get-put : (k : String) (v : Value) (fs : Fields) → get k (put k v fs) ≡ v
get-put k v end = rw (eq_refl k) refl
get-put k v (field j w fs) = elim (Bool-cases (str_eq j k)) [
  | inl same ↦ rw same (rw same refl)
  | inr other ↦ rw other (rw other (get-put k v fs))
]

pub get-put-other :
    (k l : String) (v : Value) (fs : Fields)
    → str_eq l k ≡ false
    → str_eq k l ≡ false
    → get k (put l v fs) ≡ get k fs
get-put-other k l v end n m = rw n refl
get-put-other k l v (field j w fs) n m = elim (Bool-cases (str_eq j l)) [
  | inl same ↦
      let differ = subst (λ x. str_eq x k ≡ false) (sym ((eq_iff j l).0 same)) n in
      rw same (rw differ refl)
  | inr other ↦ rw other (ap (λ x. if str_eq j k then w else x) (get-put-other k l v fs n m))
]

get_or-put-other :
    (k l : String) (d v : Value) (fs : Fields)
    → str_eq l k ≡ false
    → str_eq k l ≡ false
    → get_or k d (put l v fs) ≡ get_or k d fs
get_or-put-other k l d v end n m = rw n refl
get_or-put-other k l d v (field j w fs) n m = elim (Bool-cases (str_eq j l)) [
  | inl same ↦
      let differ = subst (λ x. str_eq x k ≡ false) (sym ((eq_iff j l).0 same)) n in
      rw same (rw differ refl)
  | inr other ↦ rw other (ap (λ x. if str_eq j k then w else x) (get_or-put-other k l d v fs n m))
]

-- The accuracy becomes 1500 metres if it was less, where it is included, and stays otherwise.
abbrev pub IsBlurred : Numbers → Bool → Fields → Fields → Type 0
IsBlurred numbers true fs fs' =
    (a : ℕ) × (numbers.as_float (get_or "accuracyMeters" (natural 0) fs) ≡ ok a)
    × (get "accuracyMeters" fs'
        ≡ double (if numbers.exceeds 0x4097700000000000 a then 0x4097700000000000 else a))
IsBlurred numbers false fs fs' = get "accuracyMeters" fs' ≡ get "accuracyMeters" fs

-- A position whose coordinates are numbers has each of them rounded to two digits; any other value
-- stays as it is.
pub data IsReduced (numbers : Numbers) (include_accuracy : Bool) (v w : Value) : Type 0 where
  no_position : as_object v ≡ none → w ≡ v → IsReduced numbers include_accuracy v w
  no_coordinates :
      (fs : Fields)
      → v ≡ object fs
      → (is_number (get "latitude" fs) && is_number (get "longitude" fs)) ≡ false
      → w ≡ v
      → IsReduced numbers include_accuracy v w
  coarse :
      (fs fs' : Fields)
      → v ≡ object fs
      → w ≡ object fs'
      → get "latitude" fs' ≡ numbers.round (get "latitude" fs) 2
      → get "longitude" fs' ≡ numbers.round (get "longitude" fs) 2
      → IsBlurred numbers include_accuracy fs fs'
      → IsReduced numbers include_accuracy v w

pub object-cases : (v : Value) → ((fs : Fields) × (v ≡ object fs)) ⊎ (as_object v ≡ none)
object-cases (object fs) = inl (fs, refl)
object-cases null = inr refl
object-cases (boolean b) = inr refl
object-cases (natural n) = inr refl
object-cases (negative n) = inr refl
object-cases (double n) = inr refl
object-cases (text s) = inr refl
object-cases (array vs) = inr refl

module _ (numbers : Numbers) where
  reduce_position-left :
      (b : Bool) (v : Value) → as_object v ≡ none → reduce_position numbers b v ≡ ok v
  unfolding reduce_position
  reduce_position-left b (object fs) h = cc
  reduce_position-left b null h = refl
  reduce_position-left b (boolean x) h = refl
  reduce_position-left b (natural n) h = refl
  reduce_position-left b (negative n) h = refl
  reduce_position-left b (double n) h = refl
  reduce_position-left b (text s) h = refl
  reduce_position-left b (array vs) h = refl

  rounded-latitude :
      (fs : Fields) → get "latitude" (rounded numbers fs) ≡ numbers.round (get "latitude" fs) 2
  rounded-latitude fs =
      get-put-other "latitude" "longitude" _
        (put "latitude" (numbers.round (get "latitude" fs) 2) fs) refl refl
      ∙ get-put "latitude" _ fs

  rounded-longitude :
      (fs : Fields) → get "longitude" (rounded numbers fs) ≡ numbers.round (get "longitude" fs) 2
  rounded-longitude fs =
      get-put "longitude" _ (put "latitude" (numbers.round (get "latitude" fs) 2) fs)

  reduce_fields-IsReduced :
      (b : Bool) (fs : Fields) (w : Value)
      → reduce_fields numbers b (rounded numbers fs) ≡ ok w
      → IsReduced numbers b (object fs) w
  unfolding reduce_fields
  reduce_fields-IsReduced true fs w h =
      let r = rounded numbers fs in
      >>=-invert (numbers.as_float (get_or "accuracyMeters" (natural 0) r)) _ h (λ a known e.
        coarse fs (put "accuracyMeters" (double (larger numbers a least_accuracy)) r) refl
          (sym (ok-injective e))
          (get-put-other "latitude" "accuracyMeters" _ r refl refl ∙ rounded-latitude fs)
          (get-put-other "longitude" "accuracyMeters" _ r refl refl ∙ rounded-longitude fs)
          (
            a,
            subst (λ v. numbers.as_float v ≡ ok a)
                (get_or-put-other "accuracyMeters" "longitude" (natural 0) _
                    (put "latitude" (numbers.round (get "latitude" fs) 2) fs) refl refl
                  ∙ get_or-put-other "accuracyMeters" "latitude" (natural 0) _ fs refl refl)
                known,
            get-put "accuracyMeters" _ r,
          ))
  reduce_fields-IsReduced false fs w h =
      coarse fs (rounded numbers fs) refl (sym (ok-injective h)) (rounded-latitude fs)
        (rounded-longitude fs)
        (get-put-other "accuracyMeters" "longitude" _
            (put "latitude" (numbers.round (get "latitude" fs) 2) fs) refl refl
          ∙ get-put-other "accuracyMeters" "latitude" _ fs refl refl)

  reduce_position-object :
      (b : Bool) (fs : Fields) (w : Value)
      → reduce_position numbers b (object fs) ≡ ok w
      → IsReduced numbers b (object fs) w
  unfolding reduce_position
  reduce_position-object b fs w h = elim (Bool-cases (has_coordinates fs)) [
    | inl has ↦ reduce_fields-IsReduced b fs w (rw has at h)
    | inr without ↦ no_coordinates fs refl without (sym (ok-injective (rw without at h)))
  ]

  pub reduce_position-IsReduced :
      (b : Bool) (v w : Value) → reduce_position numbers b v ≡ ok w → IsReduced numbers b v w
  reduce_position-IsReduced b v w h = elim (object-cases v) [
    | inl (fs, is) ↦
        subst (λ x. IsReduced numbers b x w) (sym is)
          (reduce_position-object b fs w (subst (λ x. reduce_position numbers b x ≡ ok w) is h))
    | inr plain ↦ no_position plain (sym (ok-injective (sym (reduce_position-left b v plain) ∙ h)))
  ]
