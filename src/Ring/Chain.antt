-- ===== src/Ring/Chain.antt =====
-- The slots of src/core/include/cwassistant/core/spsc_ring_buffer.hpp from one index to another.
use cw_buddy.Base.{
  ◌≡◌, ap, ◌∙◌, false, List, [], ◌∷◌, ◌++◌, ℕ, suc, ◌+◌, ◌-◌, ◌≤◌, ◌<◌, leb, ◌==◌, if◌then◌else◌,
  arith, length, inl, inr, Bool-cases, ==_iff, ◌↔◌,
}
use native.Mathlib.Nat.{mod-eq_of_lt, mod_self}
use cw_buddy.Ring.{storage_size, increment, write}

-- The index wraps at the capacity, so that there is one slot more than the capacity.
increment_lem :
    (capacity i : ℕ) → i ≤ capacity → increment capacity i ≡ (if i == capacity then 0 else i + 1)
unfolding increment
increment_lem capacity i h = elim (Bool-cases (i == capacity)) [
  | inl e ↦ rw e (rw ((==_iff i capacity).0 e) (mod_self (capacity + 1)))
  | inr e ↦ rw e (mod-eq_of_lt (ground (arith, e, h)))
]

pub increment_range : (capacity i : ℕ) → i ≤ capacity → increment capacity i ≤ capacity
increment_range capacity i h = ground (arith, increment_lem capacity i h, h)

-- The number of steps from the first index on to the second.
unfoldable pub distance : ℕ → ℕ → ℕ → ℕ
distance capacity i j = if leb i j then j - i else (j + storage_size capacity) - i

pub distance-increment :
    (capacity i j n : ℕ)
    → i ≤ capacity
    → j ≤ capacity
    → distance capacity i j ≡ suc n
    → distance capacity (increment capacity i) j ≡ n
unfolding distance
distance-increment capacity i j n hi hj d = ground (arith, increment_lem capacity i hi, hi, hj, d)

pub distance_up :
    (capacity i j n : ℕ)
    → i ≤ capacity
    → j ≤ capacity
    → distance capacity i j ≡ n
    → n < capacity
    → distance capacity i (increment capacity j) ≡ suc n
unfolding distance
distance_up capacity i j n hi hj d k = ground (arith, increment_lem capacity j hj, hi, hj, d, k)

pub distance_zero :
    (capacity i j : ℕ) → i ≤ capacity → j ≤ capacity → (distance capacity i j ≡ 0) ↔ (i ≡ j)
unfolding distance
distance_zero capacity i j hi hj = ground (arith, hi, hj)

pub distance_full :
    (capacity i j : ℕ)
    → i ≤ capacity
    → j ≤ capacity
    → (distance capacity i j ≡ capacity) ↔ (increment capacity j ≡ i)
unfolding distance
distance_full capacity i j hi hj = ground (arith, increment_lem capacity j hj, hi, hj)

pub distance_range :
    (capacity i j : ℕ) → i ≤ capacity → j ≤ capacity → distance capacity i j ≤ capacity
unfolding distance
distance_range capacity i j hi hj = ground (arith, hi, hj)

differs :
    (capacity i j n : ℕ)
    → i ≤ capacity
    → j ≤ capacity
    → distance capacity i j ≡ suc n
    → (i == j) ≡ false
unfolding distance
differs capacity i j n hi hj d = ground (arith, hi, hj, d)

module _ {ℓ} {A : Type ℓ} (capacity : ℕ) where
  -- From the index on the slots hold the list.
  abbrev pub Chain : (ℕ → A) → ℕ → List A → Type ℓ
  Chain storage i [] = Unit
  Chain storage i (x ∷ xs) = (storage i ≡ x) × Chain storage (increment capacity i) xs

  -- A write just past the list leaves it.
  pub Chain-write :
      (storage : ℕ → A) (i j : ℕ) (value : A) (xs : List A)
      → i ≤ capacity
      → j ≤ capacity
      → distance capacity i j ≡ length xs
      → Chain storage i xs
      → Chain (write j value storage) i xs
  unfolding write
  Chain-write storage i j value [] hi hj d c = tt
  Chain-write storage i j value (x ∷ xs) hi hj d c = (
    rw (differs capacity i j (length xs) hi hj d) c.0,
    Chain-write storage (increment capacity i) j value xs (increment_range capacity i hi) hj
        (distance-increment capacity i j (length xs) hi hj d) c.1,
  )

  -- A list grows by the slot just past it.
  pub Chain-append :
      (storage : ℕ → A) (i j : ℕ) (value : A) (xs : List A)
      → i ≤ capacity
      → j ≤ capacity
      → distance capacity i j ≡ length xs
      → Chain storage i xs
      → storage j ≡ value
      → Chain storage i (xs ++ (value ∷ []))
  Chain-append storage i j value [] hi hj d c e =
      (ap storage ((distance_zero capacity i j hi hj).0 d) ∙ e, tt)
  Chain-append storage i j value (x ∷ xs) hi hj d c e = (
    c.0,
    Chain-append storage (increment capacity i) j value xs (increment_range capacity i hi) hj
        (distance-increment capacity i j (length xs) hi hj d) c.1 e,
  )
