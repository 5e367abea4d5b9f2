-- ===== src/Examples/Queueing.antt =====
-- The queue of src/core/include/cwassistant/core/spsc_ring_buffer.hpp with room for two elements.
use cw_buddy.Base.{◌≡◌, refl, List, [], ◌∷◌, ◌++◌, ℕ, ◌≤◌, length, arith}
use cw_buddy.Ring.{
  Ring, Access, push_checks, push_writes, push_publishes, pop_checks, pop_reads, pop_releases,
  new_ring, run,
}
use cw_buddy.Ring.Chain.{Chain, distance}
use cw_buddy.Ring.Interleaving.{Core, interleaving_is_fifo}

-- The consumer's call runs between the accesses of the producer's second call.
abbrev accesses : List (Access ℕ)
accesses =
    push_checks 7
    ∷ push_writes
    ∷ push_publishes
    ∷ push_checks 8
    ∷ pop_checks
    ∷ push_writes
    ∷ pop_reads
    ∷ pop_releases
    ∷ push_publishes
    ∷ []

interleaving_is_fifo_example :
    let r = run 2 accesses (new_ring 2 0) in
    (xs : List ℕ) × ((r.sent ≡ r.received ++ xs) × (length xs ≤ 2) × Chain 2 r.storage r.tail xs)
interleaving_is_fifo_example = interleaving_is_fifo 2 accesses 0

-- A ring that holds one element.
abbrev one_left : Ring ℕ
one_left = record (new_ring 2 5) { head = 1; sent = 5 ∷ [] }

one_left-Core : Core 2 one_left (5 ∷ [])
unfolding distance
one_left-Core = (omega arith, omega arith, refl, (refl, tt), refl)
