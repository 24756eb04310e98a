-- ===== src/Sync/Numbered.antt =====
-- Lists of stored events whose sequences ascend (models.py, `StoredEvent.sequence`).
use balloon_crumbs.Prelude.{
  ◌≡◌, refl, inl, inr, ℕ, suc, ◌≤◌, ◌<◌, Bool, List, [], ◌∷◌, arith, Bool-cases, keep,
}
use balloon_crumbs.Models.{StoredEvent}
use balloon_crumbs.Prelude.Order.{order_by, insert}

-- The sequences ascend from `lo`, and stay below `hi`.
abbrev pub Ascends : ℕ → ℕ → List StoredEvent → Type 0
Ascends lo hi [] = lo ≤ hi
Ascends lo hi (e ∷ events) = (lo ≤ e.sequence) × Ascends (suc e.sequence) hi events

pub Ascends-weaken :
    (lo lo' hi : ℕ) (events : List StoredEvent)
    → lo' ≤ lo
    → Ascends lo hi events
    → Ascends lo' hi events
Ascends-weaken lo lo' hi [] le h = omega arith
Ascends-weaken lo lo' hi (e ∷ events) le h = (omega arith, h.1)

pub Ascends-keep :
    (p : StoredEvent → Bool) (lo hi : ℕ) (events : List StoredEvent)
    → Ascends lo hi events
    → Ascends lo hi (keep p events)
Ascends-keep p lo hi [] h = h
Ascends-keep p lo hi (e ∷ events) h = elim (Bool-cases (p e)) [
  | inl kept ↦ rw kept (h.0, Ascends-keep p (suc e.sequence) hi events h.1)
  | inr left ↦ rw left (
      Ascends-weaken (suc e.sequence) lo hi (keep p events) (omega arith)
        (Ascends-keep p (suc e.sequence) hi events h.1))
]

-- Ordering ascending rows leaves them as they are.
insert-ascending :
    (lo hi : ℕ) (e : StoredEvent) (events : List StoredEvent)
    → e.sequence < lo
    → Ascends lo hi events
    → insert (λ x. x.sequence) e events ≡ e ∷ events
unfolding insert
insert-ascending lo hi e [] le h = refl
insert-ascending lo hi e (x ∷ events) le h = ground (arith, h.0)

pub order_by-ascending :
    (lo hi : ℕ) (events : List StoredEvent)
    → Ascends lo hi events
    → order_by (λ x. x.sequence) events ≡ events
unfolding order_by
order_by-ascending lo hi [] h = refl
order_by-ascending lo hi (e ∷ events) h =
    rw (order_by-ascending (suc e.sequence) hi events h.1)
      (insert-ascending (suc e.sequence) hi e events (omega arith) h.1)

-- the rows of the table ascend, below a bound
abbrev pub IsNumbered : ℕ → List StoredEvent → Type 0
IsNumbered next events = Ascends 0 next events
