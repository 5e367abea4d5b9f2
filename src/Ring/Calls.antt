-- ===== src/Ring/Calls.antt =====
-- The calls of src/core/include/cwassistant/core/spsc_ring_buffer.hpp, each taken whole, against a
-- queue that is a list.
use cw_buddy.Base.{
  ◌≡◌, refl, ap, sym, ◌∙◌, false, not, List, [], ◌∷◌, ◌++◌, ℕ, ◌==◌, ltb, if◌then◌else◌, arith,
  length, inl, inr, Bool-cases, ==_iff, append_assoc, Option, some, none,
}
use cw_buddy.Ring.{
  increment, write, no_push, no_pop, Ring, check_push, write_push, publish_push, check_pop,
  read_next, release_pop, access, try_push, try_pop,
}
use cw_buddy.Ring.Chain.{
  increment_range, Chain-write, Chain-append, distance_up, distance-increment, distance_zero,
  distance_full, distance_range,
}
use cw_buddy.Ring.Interleaving.{Core, write_self, length-suc}

module _ {A : Type 0} (capacity : ℕ) where
  -- No call is in progress, and the ring holds the list.
  abbrev pub IsQueue : Ring A → List A → Type 0
  IsQueue r xs = Core capacity r xs × (r.pushing ≡ no_push) × (r.popping ≡ no_pop)

  -- The ring with no call in progress.
  abbrev pub at_rest : Ring A → Ring A
  at_rest r = record r { pushing = no_push; popping = no_pop }

  push_refused :
      (r : Ring A) (xs : List A)
      → Core capacity r xs
      → (increment capacity r.head == r.tail) ≡ not (ltb (length xs) capacity)
  push_refused r xs c = ground (
    arith,
    distance_full capacity r.tail r.head c.1 c.0,
    distance_range capacity r.tail r.head c.1 c.0,
    c.2,
  )

  -- `try_push` on a ring that holds a list, with no call in progress, is refused exactly when the
  -- ring holds `capacity` elements, and then leaves them; otherwise it puts the element behind
  -- them.
  pub try_push_lem :
      (value : A) (r : Ring A) (xs : List A)
      → Core capacity r xs
      → let (r', ok) = try_push capacity value (at_rest r) in
        (ok ≡ ltb (length xs) capacity) × IsQueue r' (if ok then xs ++ (value ∷ []) else xs)
  unfolding try_push access check_push write_push publish_push
  try_push_lem value r xs c =
      rw (push_refused r xs c) (elim (Bool-cases (ltb (length xs) capacity)) [
        | inr e ↦ rw e (refl, (c, refl, refl))
        | inl e ↦ rw e (
          refl,
          (
            (
              increment_range capacity r.head c.0,
              c.1,
              distance_up capacity r.tail r.head (length xs) c.1 c.0 c.2 (ground (arith, e))
                  ∙ sym (length-suc capacity xs value),
              Chain-append capacity (write r.head value r.storage) r.tail r.head value xs c.1 c.0
                  c.2 (Chain-write capacity r.storage r.tail r.head value xs c.1 c.0 c.2 c.3)
                  (write_self capacity r.head value r.storage),
              ap (λ l. l ++ (value ∷ [])) c.4 ∙ append_assoc r.received xs (value ∷ []),
            ),
            refl,
            refl,
          ),
        )
      ])

  abbrev pub first : List A → Option A
  first [] = none
  first (x ∷ xs) = some x

  abbrev pub rest_of : List A → List A
  rest_of [] = []
  rest_of (x ∷ xs) = xs

  pop_refused :
      (r : Ring A) (x : A) (xs : List A) → Core capacity r (x ∷ xs) → (r.tail == r.head) ≡ false
  pop_refused r x xs c = ground (arith, distance_zero capacity r.tail r.head c.1 c.0, c.2)

  -- `try_pop` on a ring that holds a list, with no call in progress, returns nothing exactly when
  -- the ring holds no element; otherwise it returns the first element and takes it out.
  pub try_pop_lem :
      (r : Ring A) (xs : List A)
      → Core capacity r xs
      → let (r', o) = try_pop capacity (at_rest r) in (o ≡ first xs) × IsQueue r' (rest_of xs)
  unfolding try_pop access check_pop read_next release_pop
  try_pop_lem r [] c =
      rw ((==_iff r.tail r.head).1 ((distance_zero capacity r.tail r.head c.1 c.0).0 c.2))
        (refl, (c, refl, refl))
  try_pop_lem r (x ∷ xs) c = rw (pop_refused r x xs c) (
    ap some c.3.0,
    (
      (
        c.0,
        increment_range capacity r.tail c.1,
        distance-increment capacity r.tail r.head (length xs) c.1 c.0 c.2,
        c.3.1,
        c.4
            ∙ sym (
                ap (λ v. (r.received ++ (v ∷ [])) ++ xs) c.3.0
                ∙ append_assoc r.received (x ∷ []) xs),
      ),
      refl,
      refl,
    ),
  )
