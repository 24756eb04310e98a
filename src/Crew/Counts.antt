-- ===== src/Crew/Counts.antt =====
-- How the writes of apps/server/src/balloon_crumbs_server/service.py to the crew rooms change the
-- number of rooms with an identity or an alias.
use balloon_crumbs.Prelude.{
  ◌≡◌, refl, inl, inr, ℕ, ◌+◌, ◌≤◌, String, Bool, true, false, some, List, [], ◌∷◌, arith, str_eq,
  eq_iff, Bool-cases, is_some, find, all, any, count_of,
}
use balloon_crumbs.Models.{CrewRoom}
use balloon_crumbs.Text.{compare_digest}
use balloon_crumbs.Crew.Tables.{find_room, put_room}
use balloon_crumbs.Crew.Rows.{taken_by_another}

abbrev pub with_id : String → List CrewRoom → ℕ
with_id id rooms = count_of (λ r. str_eq r.id id) rooms

abbrev pub with_alias : List ℕ → List CrewRoom → ℕ
with_alias digest rooms = count_of (λ r. compare_digest r.alias_digest digest) rooms

abbrev pub one_if : Bool → ℕ
one_if true = 1
one_if false = 0

module _ {A : Type 0} (p : A → Bool) where
  pub find-true : (xs : List A) (x : A) → find p xs ≡ some x → p x ≡ true
  find-true [] x h = cc
  find-true (y ∷ xs) x h = ground (arith, find-true xs x)

  pub find-none-count : (xs : List A) → is_some (find p xs) ≡ false → count_of p xs ≡ 0
  find-none-count [] h = refl
  find-none-count (y ∷ xs) h = ground (arith, find-none-count xs)

  pub find-any : (xs : List A) (x : A) → find p xs ≡ some x → any p xs ≡ true
  find-any [] x h = cc
  find-any (y ∷ xs) x h = ground (arith, find-any xs x)

  pub find-all :
      (q : A → Bool) (xs : List A) (x : A) → find p xs ≡ some x → all q xs ≡ true → q x ≡ true
  find-all q [] x h k = cc
  find-all q (y ∷ xs) x h k = ground (arith, find-all q xs x)

  pub find-count :
      (q : A → Bool) (xs : List A) (x : A) → find p xs ≡ some x → q x ≡ true → 1 ≤ count_of q xs
  find-count q [] x h k = cc
  find-count q (y ∷ xs) x h k = ground (arith, find-count q xs x)

str_eq_refl : (s : String) → str_eq s s ≡ true
str_eq_refl s = (eq_iff s s).1 refl

-- Where an identity stands once, the room that a query finds is the one that its identity finds.
pub find_room-found :
    (p : CrewRoom → Bool) (rooms : List CrewRoom) (room : CrewRoom)
    → find p rooms ≡ some room
    → with_id room.id rooms ≤ 1
    → find_room room.id rooms ≡ some room
find_room-found p [] room h k = cc
find_room-found p (r ∷ rooms) room h k = elim (Bool-cases (p r)) [
  | inl t ↦ ground (arith, str_eq_refl room.id)
  | inr t ↦ ground (
    arith,
    find_room-found p rooms room,
    find-count p (λ x. str_eq x.id room.id) rooms room,
    str_eq_refl room.id,
  )
]

pub put_room-count :
    (p : CrewRoom → Bool) (room old : CrewRoom) (rooms : List CrewRoom)
    → find_room room.id rooms ≡ some old
    → count_of p (put_room room rooms) + one_if (p old) ≡ count_of p rooms + one_if (p room)
unfolding put_room
put_room-count p room old [] h = cc
put_room-count p room old (r ∷ rooms) h = ground (arith, put_room-count p room old rooms)

untaken-le :
    (digest : List ℕ) (id : String) (rooms : List CrewRoom)
    → any (taken_by_another digest id) rooms ≡ false
    → with_alias digest rooms ≤ with_id id rooms
untaken-le digest id [] h = omega arith
untaken-le digest id (r ∷ rooms) h = ground (arith, untaken-le digest id rooms)

-- An alias that no other room has stands at most in the room itself.
pub untaken-count :
    (digest : List ℕ) (old : CrewRoom) (id : String) (rooms : List CrewRoom)
    → any (taken_by_another digest id) rooms ≡ false
    → find_room id rooms ≡ some old
    → with_id id rooms ≤ 1
    → with_alias digest rooms ≤ one_if (compare_digest old.alias_digest digest)
untaken-count digest old id [] h f k = cc
untaken-count digest old id (r ∷ rooms) h f k =
    ground (arith, untaken-count digest old id rooms, untaken-le digest id rooms)
