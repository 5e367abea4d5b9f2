-- ===== src/Ring.antt =====
-- SpscRingBuffer of src/core/include/cwassistant/core/spsc_ring_buffer.hpp: a bounded queue between
-- one producer and one consumer thread. A thread's call is cut at its accesses to the shared
-- memory, and the threads' accesses come in any order. The release stores and acquire loads of the
-- indices make the writes of one thread before its store visible to the other after its load, so
-- that the accesses are taken one after the other.
pub mod Chain
pub mod Interleaving
pub mod Calls
use cw_buddy.Base.{
  ◌≡◌, Bool, true, false, not, List, [], ◌∷◌, ◌++◌, ℕ, ◌+◌, ◌%◌, Option, none, some, ◌==◌,
  if◌then◌else◌,
}

-- `kStorageSize`.
abbrev pub storage_size : ℕ → ℕ
storage_size capacity = capacity + 1

unfoldable pub increment : ℕ → ℕ → ℕ
increment capacity index = (index + 1) % storage_size capacity

module _ {ℓ} {A : Type ℓ} where
  unfoldable pub write : ℕ → A → (ℕ → A) → ℕ → A
  write i value storage j = if j == i then value else storage j

-- How far the producer's call has come: none is running; the check has passed, with the local
-- `head` and `next`; the element is written, with the local `next`.
pub data Pushing {ℓ} (A : Type ℓ) : Type ℓ where
  no_push : Pushing A
  checked_push : A → ℕ → ℕ → Pushing A
  written_push : A → ℕ → Pushing A

-- How far the consumer's call has come: none is running; the check has passed, with the local
-- `tail`; the element is read as well.
pub data Popping {ℓ} (A : Type ℓ) : Type ℓ where
  no_pop : Popping A
  checked_pop : ℕ → Popping A
  read_pop : ℕ → A → Popping A

-- `sent` and `received` are no part of the program: the elements whose call has returned true, the
-- oldest first.
pub record Ring {ℓ} (A : Type ℓ) : Type ℓ where
  pub storage : ℕ → A
  pub head : ℕ
  pub tail : ℕ
  pub pushing : Pushing A
  pub popping : Popping A
  pub sent : List A
  pub received : List A

-- An access: a call starts with its check, and goes on only after a check that passes.
pub data Access {ℓ} (A : Type ℓ) : Type ℓ where
  push_checks : A → Access A
  push_writes : Access A
  push_publishes : Access A
  pop_checks : Access A
  pop_reads : Access A
  pop_releases : Access A

module _ {ℓ} {A : Type ℓ} where
  unfoldable pub write_push : Pushing A → Ring A → Ring A
  write_push (checked_push value head next) r = record r {
    storage = write head value r.storage;
    pushing = written_push value next;
  }
  write_push p r = r

  unfoldable pub publish_push : Pushing A → Ring A → Ring A
  publish_push (written_push value next) r = record r {
    head = next;
    pushing = no_push;
    sent = r.sent ++ (value ∷ []);
  }
  publish_push p r = r

  unfoldable pub check_pop : Popping A → Ring A → Ring A
  check_pop no_pop r = if r.tail == r.head then r else record r { popping = checked_pop r.tail }
  check_pop p r = r

  unfoldable pub read_next : Popping A → Ring A → Ring A
  read_next (checked_pop tail) r = record r { popping = read_pop tail (r.storage tail) }
  read_next p r = r

  unfoldable pub is_empty : Ring A → Bool
  is_empty r = r.head == r.tail

module _ {ℓ} {A : Type ℓ} (capacity : ℕ) where
  abbrev pub new_ring : A → Ring A
  new_ring value = record {
    storage = λ i. value;
    head = 0;
    tail = 0;
    pushing = no_push;
    popping = no_pop;
    sent = [];
    received = [];
  }

  unfoldable pub check_push : A → Pushing A → Ring A → Ring A
  check_push value no_push r =
      if increment capacity r.head == r.tail
      then r
      else record r { pushing = checked_push value r.head (increment capacity r.head) }
  check_push value p r = r

  unfoldable pub release_pop : Popping A → Ring A → Ring A
  release_pop (read_pop tail value) r = record r {
    tail = increment capacity tail;
    popping = no_pop;
    received = r.received ++ (value ∷ []);
  }
  release_pop p r = r

  unfoldable pub access : Access A → Ring A → Ring A
  access (push_checks value) r = check_push value r.pushing r
  access push_writes r = write_push r.pushing r
  access push_publishes r = publish_push r.pushing r
  access pop_checks r = check_pop r.popping r
  access pop_reads r = read_next r.popping r
  access pop_releases r = release_pop r.popping r

  unfoldable pub run : List (Access A) → Ring A → Ring A
  run [] r = r
  run (a ∷ rest) r = run rest (access a r)

  -- A whole call of the producer, and whether its check passes.
  unfoldable pub try_push : A → Ring A → Ring A × Bool
  try_push value r = (
    access push_publishes (access push_writes (access (push_checks value) r)),
    not (increment capacity r.head == r.tail),
  )

  -- A whole call of the consumer, and the element that it returns.
  unfoldable pub try_pop : Ring A → Ring A × Option A
  try_pop r = (
    access pop_releases (access pop_reads (access pop_checks r)),
    if r.tail == r.head then none else some (r.storage r.tail),
  )
