-- ===== src/Presence/Phase.antt =====
-- The phase of a ride, as a machine that reads the lifecycle events
-- (apps/server/src/balloon_crumbs_server/service.py, `_ride_presence_phase`).
use balloon_crumbs.Prelude.{
  ◌≡◌, refl, inl, inr, String, Bool, true, false, ◌||◌, List, [], ◌∷◌, arith, str_eq, eq_iff,
  if◌then◌else◌, Bool-cases, keep, last_or, contains,
}
use balloon_crumbs.Presence.Roster.{Phase, open_phase, started, ended, phase_of, is_end}

-- What the lifecycle events have done so far: a reopening takes an end back, and nothing takes the
-- start back.
pub record Course : Type 0 where
  pub has_started : Bool
  pub has_ended : Bool

unfoldable pub advance : Course → String → Course
advance course type =
    if str_eq type "rideStarted"
    then record course { has_started = true }
    else if str_eq type "rideEnded"
    then record course { has_ended = true }
    else if str_eq type "rideReopened"
    then record course { has_ended = false }
    else course

unfoldable pub advance_all : Course → List String → Course
unfolding advance
advance_all course [] = course
advance_all course (type ∷ types) = advance_all (advance course type) types

unfoldable pub phase_in : Course → Phase
phase_in course =
    if course.has_ended then ended else if course.has_started then started else open_phase

abbrev pub not_begun : Course
not_begun = record { has_started = false; has_ended = false }

advance_all-has_started :
    (types : List String) (c : Course)
    → (advance_all c types).has_started ≡ (c.has_started || contains str_eq "rideStarted" types)
unfolding advance_all advance
advance_all-has_started [] c = ground arith
advance_all-has_started (t ∷ ts) c = ground (
  arith,
  advance_all-has_started ts (advance c t),
  eq_iff t "rideStarted",
  eq_iff "rideStarted" t,
)

advance-has_ended :
    (c : Course) (t : String)
    → (advance c t).has_ended ≡ (if is_end t then str_eq t "rideEnded" else c.has_ended)
unfolding advance
advance-has_ended c t = elim (Bool-cases (str_eq t "rideStarted")) [
  | inl s ↦ rw ((eq_iff t "rideStarted").0 s) refl
  | inr s ↦ elim (Bool-cases (str_eq t "rideEnded")) [
    | inl e ↦ rw ((eq_iff t "rideEnded").0 e) refl
    | inr e ↦ ground (arith, s, e)
  ]
]

advance_all-has_ended :
    (types : List String) (c : Course) (d : String)
    → c.has_ended ≡ str_eq d "rideEnded"
    → (advance_all c types).has_ended ≡ str_eq (last_or d (keep is_end types)) "rideEnded"
unfolding advance_all
advance_all-has_ended [] c d h = h
advance_all-has_ended (t ∷ ts) c d h = elim (Bool-cases (is_end t)) [
  | inl e ↦ rw e (advance_all-has_ended ts (advance c t) t (rw (advance-has_ended c t, e) refl))
  | inr e ↦ rw e (advance_all-has_ended ts (advance c t) d (rw (advance-has_ended c t, e) h))
]

-- The phase is ended if the last end or reopening is an end, else started if there has been a
-- start: what the machine that reads the events one by one arrives at.
pub phase_of-advance_all :
    (types : List String) → phase_of types ≡ phase_in (advance_all not_begun types)
unfolding phase_of phase_in
phase_of-advance_all types =
    ground (
      arith,
      advance_all-has_started types not_begun,
      advance_all-has_ended types not_begun "" refl,
    )
