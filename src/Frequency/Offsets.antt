-- ===== src/Frequency/Offsets.antt =====
-- Dial frequencies and actual frequencies, in both directions.
use cw_buddy.Base.{
  ◌≡◌, ◌↔◌, ℕ, Option, ◌≤◌, ◌<◌, none, some, arith, if◌then◌else◌, ℤ, pos, negsuc, u64_max,
}
use cw_buddy.Frequency.{
  VfoFrequencyPlan, TransverterOffsets, ResolvedFrequencies, add_signed_offset, tx_dial,
  resolved_of, resolve_frequencies, resolve_dial_frequency,
}

add_signed_offset→resolve :
    (offset : ℤ) (dial rf : ℕ)
    → 0 < dial
    → dial ≤ u64_max
    → add_signed_offset dial offset ≡ some rf
    → resolve_dial_frequency rf offset ≡ some dial
unfolding add_signed_offset resolve_dial_frequency
add_signed_offset→resolve (pos positive) dial rf p m h = ground arith
add_signed_offset→resolve (negsuc n) dial rf p m h = ground arith

resolve→add_signed_offset :
    (offset : ℤ) (dial rf : ℕ)
    → rf ≤ u64_max
    → resolve_dial_frequency rf offset ≡ some dial
    → add_signed_offset dial offset ≡ some rf
unfolding add_signed_offset resolve_dial_frequency
resolve→add_signed_offset (pos positive) dial rf m h = ground arith
resolve→add_signed_offset (negsuc n) dial rf m h = ground arith

-- For frequencies from 1 to 2 ^ 64 - 1, adding a transverter offset to a dial frequency and
-- taking it off an actual frequency are inverse to each other, and one fails exactly where the other
-- does not give such a frequency.
pub add_signed_offset-resolve_dial_frequency :
    (offset : ℤ) (dial rf : ℕ)
    → 0 < dial
    → dial ≤ u64_max
    → rf ≤ u64_max
    → (add_signed_offset dial offset ≡ some rf) ↔ (resolve_dial_frequency rf offset ≡ some dial)
add_signed_offset-resolve_dial_frequency offset dial rf p m n =
    (add_signed_offset→resolve offset dial rf p m, resolve→add_signed_offset offset dial rf n)

pub resolved_of-some :
    (plan : VfoFrequencyPlan) (rx tx : Option ℕ) (r : ResolvedFrequencies)
    → resolved_of plan rx tx ≡ some r
    → (rx ≡ some r.rx_rf_hz)
      × (tx ≡ some r.tx_rf_hz)
      × (r.rx_dial_hz ≡ plan.rx_dial_hz)
      × (r.tx_dial_hz ≡ tx_dial plan)
unfolding resolved_of
resolved_of-some plan none tx r h = absurd (cc h)
resolved_of-some plan (some rx) none r h = absurd (cc h)
resolved_of-some plan (some rx) (some tx) r h = ground (arith, h)

-- Past the tests for zero.
pub resolve_frequencies-some :
    (plan : VfoFrequencyPlan) (offsets : TransverterOffsets) (r : ResolvedFrequencies)
    → resolve_frequencies plan offsets ≡ some r
    → (0 < plan.rx_dial_hz)
      × (0 < tx_dial plan)
      × (resolved_of plan
            (add_signed_offset plan.rx_dial_hz offsets.rx_offset_hz)
            (add_signed_offset (tx_dial plan) offsets.tx_offset_hz)
          ≡ some r)
unfolding resolve_frequencies
resolve_frequencies-some plan offsets r h = ground (arith, h)

-- What the frequencies of a plan resolve to leads back to the plan: for dial frequencies below
-- 2 ^ 64, the receiver's dial frequency is the plan's, the transmitter's is the plan's own with
-- split and the receiver's without, and each is the dial frequency of its actual frequency under its
-- offset.
pub resolve_frequencies-resolve_dial_frequency :
    (plan : VfoFrequencyPlan) (offsets : TransverterOffsets) (r : ResolvedFrequencies)
    → plan.rx_dial_hz ≤ u64_max
    → plan.tx_dial_hz ≤ u64_max
    → resolve_frequencies plan offsets ≡ some r
    → (r.rx_dial_hz ≡ plan.rx_dial_hz)
      × (r.tx_dial_hz ≡ (if plan.split_enabled then plan.tx_dial_hz else plan.rx_dial_hz))
      × (resolve_dial_frequency r.rx_rf_hz offsets.rx_offset_hz ≡ some r.rx_dial_hz)
      × (resolve_dial_frequency r.tx_rf_hz offsets.tx_offset_hz ≡ some r.tx_dial_hz)
resolve_frequencies-resolve_dial_frequency plan offsets r m n h =
    let (p, q, e) = resolve_frequencies-some plan offsets r h in
    let (rx, tx, rx_dial, tx_is) = resolved_of-some plan _ _ r e in
    let bound : tx_dial plan ≤ u64_max = ground (arith, m, n) in
    let back_rx =
      add_signed_offset→resolve offsets.rx_offset_hz plan.rx_dial_hz r.rx_rf_hz p m rx in
    let back_tx =
      add_signed_offset→resolve offsets.tx_offset_hz (tx_dial plan) r.tx_rf_hz q bound tx in
    (rx_dial, tx_is, cc (back_rx, rx_dial), cc (back_tx, tx_is))
