-- ===== src/Frequency/Steps.antt =====
-- Steps of the receiver's frequency.
use cw_buddy.Base.{◌≡◌, ℕ, zero, suc, ◌≤◌, ◌<◌, Option, some, arith, ℤ, pos, negsuc, u64_max}
use cw_buddy.Frequency.{value_or, negated, step_from, step_rx_frequency}

-- Steps count from the request that is still pending, or from the report without one, and a step
-- from a frequency between 1 and 2 ^ 64 - 1 that succeeded is undone by the step in the other
-- direction, whatever frequency is reported by then, if it is not zero.
pub step_rx_frequency-step_rx_frequency :
    (reported later step n : ℕ) (pending : Option ℕ) (direction : ℤ)
    → 0 < later
    → 0 < value_or pending reported
    → value_or pending reported ≤ u64_max
    → step_rx_frequency reported pending step direction ≡ some n
    → step_rx_frequency later (some n) step (negated direction) ≡ some (value_or pending reported)
unfolding step_rx_frequency step_from
step_rx_frequency-step_rx_frequency reported later step n pending (pos zero) p q m h =
    ground (arith, h)
step_rx_frequency-step_rx_frequency reported later step n pending (pos (suc k)) p q m h =
    ground (arith, h)
step_rx_frequency-step_rx_frequency reported later step n pending (negsuc k) p q m h =
    ground (arith, h)
