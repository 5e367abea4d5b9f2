-- ===== src/Ring/Interleaving.antt =====
-- What holds of src/core/include/cwassistant/core/spsc_ring_buffer.hpp for every order in which the
-- two threads access the memory.
use cw_buddy.Base.{
  ◌≡◌, refl, ap, sym, ◌∙◌, false, List, [], ◌∷◌, ◌++◌, ℕ, suc, ◌≤◌, ◌<◌, ◌==◌, arith, length,
  length-append, inl, inr, Bool-cases, append_assoc,
}
use cw_buddy.Ring.{
  increment, write, Pushing, no_push, checked_push, written_push, Popping, no_pop, checked_pop,
  read_pop, Ring, Access, push_checks, push_writes, push_publishes, pop_checks, pop_reads,
  pop_releases, new_ring, check_push, write_push, publish_push, check_pop, read_next, release_pop,
  access, run,
}
use cw_buddy.Ring.Chain.{
  increment_range, distance, distance-increment, distance_up, distance_zero, distance_full,
  distance_range, Chain, Chain-write, Chain-append,
}

within :
    {capacity i j n : ℕ} → j ≤ capacity → i ≤ capacity → distance capacity i j ≡ n → n ≤ capacity
within {capacity} {i} {j} hj hi d = ground (arith, distance_range capacity i j hi hj, d)

module _ {A : Type 0} (capacity : ℕ) where
  abbrev pub Starts : A → List A → Type 0
  Starts value [] = ⊥
  Starts value (x ∷ xs) = x ≡ value

  -- What a push in progress knows: its local indices are current and there is room.
  abbrev pub PushInv : Pushing A → ℕ → (ℕ → A) → List A → Type 0
  PushInv no_push head storage xs = Unit
  PushInv (checked_push value h next) head storage xs =
      (h ≡ head) × (next ≡ increment capacity head) × (length xs < capacity)
  PushInv (written_push value next) head storage xs =
      (next ≡ increment capacity head) × (length xs < capacity) × (storage head ≡ value)

  -- What a pop in progress knows: its local index is current and the ring is not empty.
  abbrev pub PopInv : Popping A → ℕ → List A → Type 0
  PopInv no_pop tail xs = Unit
  PopInv (checked_pop t) tail xs = (t ≡ tail) × (0 < length xs)
  PopInv (read_pop t value) tail xs = (t ≡ tail) × Starts value xs

  abbrev pub Core : Ring A → List A → Type 0
  Core r xs =
      (r.head ≤ capacity)
      × (r.tail ≤ capacity)
      × (distance capacity r.tail r.head ≡ length xs)
      × Chain capacity r.storage r.tail xs
      × (r.sent ≡ r.received ++ xs)

  -- The ring holds the list: it is in the slots from the tail to the head, it is what was sent and
  -- not yet received, and the calls in progress know what they rely on.
  abbrev pub Inv : Ring A → List A → Type 0
  Inv r xs = Core r xs × PushInv r.pushing r.head r.storage xs × PopInv r.popping r.tail xs

  has_room :
      (r : Ring A) (xs : List A)
      → Core r xs
      → (increment capacity r.head == r.tail) ≡ false
      → length xs < capacity
  has_room r xs c e = ground (
    arith,
    distance_full capacity r.tail r.head c.1 c.0,
    distance_range capacity r.tail r.head c.1 c.0,
    c.2,
    e,
  )

  check_push-Inv :
      (value : A) (p : Pushing A) (r : Ring A) (xs : List A)
      → Inv r xs
      → Inv (check_push capacity value p r) xs
  unfolding check_push
  check_push-Inv value no_push r xs i = elim (Bool-cases (increment capacity r.head == r.tail)) [
    | inl e ↦ rw e i
    | inr e ↦ rw e (i.0, (refl, refl, has_room r xs i.0 e), i.2)
  ]
  check_push-Inv value (checked_push v h n) r xs i = i
  check_push-Inv value (written_push v n) r xs i = i

  pub write_self : (i : ℕ) (v : A) (storage : ℕ → A) → write i v storage i ≡ v
  unfolding write
  write_self i v storage = ground arith

  pub length-suc : (xs : List A) (v : A) → length (xs ++ (v ∷ [])) ≡ suc (length xs)
  length-suc xs v = omega (arith, length-append xs (v ∷ []))

  write_push-Inv :
      (p : Pushing A) (r : Ring A) (xs : List A)
      → Inv r xs
      → PushInv p r.head r.storage xs
      → Inv (write_push p r) xs
  unfolding write_push
  write_push-Inv no_push r xs i k = i
  write_push-Inv (written_push v n) r xs i k = i
  write_push-Inv (checked_push v h n) r xs (c, q, o) (eh, en, room) = rw eh (
    (c.0, c.1, c.2, Chain-write capacity r.storage r.tail r.head v xs c.1 c.0 c.2 c.3, c.4),
    (en, room, write_self r.head v r.storage),
    o,
  )

  append-PopInv :
      (p : Popping A) (tail : ℕ) (xs : List A) (v : A)
      → PopInv p tail xs
      → PopInv p tail (xs ++ (v ∷ []))
  append-PopInv no_pop tail xs v o = tt
  append-PopInv (checked_pop t) tail [] v o = ground (arith, o)
  append-PopInv (checked_pop t) tail (x ∷ xs) v o = (o.0, omega arith)
  append-PopInv (read_pop t w) tail [] v o = absurd o.1
  append-PopInv (read_pop t w) tail (x ∷ xs) v o = o

  publish_push-Inv :
      (p : Pushing A) (r : Ring A) (xs : List A)
      → Inv r xs
      → PushInv p r.head r.storage xs
      → (ys : List A) × Inv (publish_push p r) ys
  unfolding publish_push
  publish_push-Inv no_push r xs i k = (xs, i)
  publish_push-Inv (checked_push v h n) r xs i k = (xs, i)
  publish_push-Inv (written_push v n) r xs (c, q, o) (en, room, ev) = (
    xs ++ (v ∷ []),
    rw en (
      (
        increment_range capacity r.head c.0,
        c.1,
        distance_up capacity r.tail r.head (length xs) c.1 c.0 c.2 room ∙ sym (length-suc xs v),
        Chain-append capacity r.storage r.tail r.head v xs c.1 c.0 c.2 c.3 ev,
        ap (λ l. l ++ (v ∷ [])) c.4 ∙ append_assoc r.received xs (v ∷ []),
      ),
      tt,
      append-PopInv r.popping r.tail xs v o,
    ),
  )

  check_pop-Inv : (p : Popping A) (r : Ring A) (xs : List A) → Inv r xs → Inv (check_pop p r) xs
  unfolding check_pop
  check_pop-Inv no_pop r xs i = elim (Bool-cases (r.tail == r.head)) [
    | inl e ↦ rw e i
    | inr e ↦ rw e (
      i.0,
      i.1,
      (refl, ground (arith, distance_zero capacity r.tail r.head i.0.1 i.0.0, i.0.2, e)),
    )
  ]
  check_pop-Inv (checked_pop t) r xs i = i
  check_pop-Inv (read_pop t v) r xs i = i

  read_next-Inv :
      (p : Popping A) (r : Ring A) (xs : List A)
      → Inv r xs
      → PopInv p r.tail xs
      → Inv (read_next p r) xs
  unfolding read_next
  read_next-Inv no_pop r xs i k = i
  read_next-Inv (read_pop t v) r xs i k = i
  read_next-Inv (checked_pop t) r [] i k = absurd (omega (arith, k.1))
  read_next-Inv (checked_pop t) r (x ∷ xs) i k = (i.0, i.1, (k.0, sym (ap r.storage k.0 ∙ i.0.3.0)))

  tail-PushInv :
      (p : Pushing A) (head : ℕ) (storage : ℕ → A) (x : A) (xs : List A)
      → PushInv p head storage (x ∷ xs)
      → PushInv p head storage xs
  tail-PushInv no_push head storage x xs k = tt
  tail-PushInv (checked_push v h n) head storage x xs k = (k.0, k.1, omega (arith, k.2))
  tail-PushInv (written_push v n) head storage x xs k = (k.0, omega (arith, k.1), k.2)

  release_pop-Inv :
      (p : Popping A) (r : Ring A) (xs : List A)
      → Inv r xs
      → PopInv p r.tail xs
      → (ys : List A) × Inv (release_pop capacity p r) ys
  unfolding release_pop
  release_pop-Inv no_pop r xs i k = (xs, i)
  release_pop-Inv (checked_pop t) r xs i k = (xs, i)
  release_pop-Inv (read_pop t v) r [] i k = absurd k.1
  release_pop-Inv (read_pop t v) r (x ∷ xs) (c, q, o) (et, ex) = (
    xs,
    rw (et, sym ex)
        (
          (
            c.0,
            increment_range capacity r.tail c.1,
            distance-increment capacity r.tail r.head (length xs) c.1 c.0 c.2,
            c.3.1,
            c.4 ∙ sym (append_assoc r.received (x ∷ []) xs),
          ),
          tail-PushInv r.pushing r.head r.storage x xs q,
          tt,
        ),
  )

  access-Inv :
      (a : Access A) (r : Ring A) (xs : List A)
      → Inv r xs
      → (ys : List A) × Inv (access capacity a r) ys
  unfolding access
  access-Inv (push_checks v) r xs i = (xs, check_push-Inv v r.pushing r xs i)
  access-Inv push_writes r xs i = (xs, write_push-Inv r.pushing r xs i i.1)
  access-Inv push_publishes r xs i = publish_push-Inv r.pushing r xs i i.1
  access-Inv pop_checks r xs i = (xs, check_pop-Inv r.popping r xs i)
  access-Inv pop_reads r xs i = (xs, read_next-Inv r.popping r xs i i.2)
  access-Inv pop_releases r xs i = release_pop-Inv r.popping r xs i i.2

  pub run-Inv :
      (accesses : List (Access A)) (r : Ring A) (xs : List A)
      → Inv r xs
      → (ys : List A) × Inv (run capacity accesses r) ys
  unfolding run
  run-Inv [] r xs i = (xs, i)
  run-Inv (a ∷ rest) r xs i =
      let (ys, j) = access-Inv a r xs i in run-Inv rest (access capacity a r) ys j

  new_ring-Inv : (value : A) → Inv (new_ring capacity value) []
  unfolding distance
  new_ring-Inv value = ((omega arith, omega arith, refl, tt, refl), tt, tt)

  -- In every order of the two threads' accesses to a new ring, what the consumer has received is
  -- what the producer has sent, in that order and without its last elements, of which there are at
  -- most `capacity`, and which the slots hold from the tail on.
  pub interleaving_is_fifo :
      (accesses : List (Access A)) (value : A)
      → let r = run capacity accesses (new_ring capacity value) in
        (xs : List A) × ((r.sent ≡ r.received ++ xs)
          × (length xs ≤ capacity)
          × Chain capacity r.storage r.tail xs)
  interleaving_is_fifo accesses value =
      let (xs, i) = run-Inv accesses (new_ring capacity value) [] (new_ring-Inv value) in
      (xs, (i.0.4, within i.0.0 i.0.1 i.0.2, i.0.3))
