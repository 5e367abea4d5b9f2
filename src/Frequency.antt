-- ===== src/Frequency.antt =====
-- src/core/src/frequency_plan.cpp and its header: dial and actual frequencies, transverter offsets,
-- OmniRig's frequency properties, steps and bands. A frequency is a number below 2 ^ 64, an offset a
-- signed number; floating-point numbers are the parameter `Doubles`.
pub mod Offsets
pub mod Bands
pub mod Steps
pub mod Parse
use cw_buddy.Base.{
  Bool, true, false, ◌&&◌, ◌||◌, not, List, [], ◌∷◌, Option, none, some, ℕ, ◌+◌, ◌-◌, ◌*◌, ◌/◌, ◌%◌,
  zero, suc, ltb, leb, ◌==◌, if◌then◌else◌, ℤ, pos, negsuc, u64_max,
}
use cw_buddy.Text.{Text, codes}

pub record VfoFrequencyPlan : Type 0 where
  pub rx_dial_hz : ℕ
  pub tx_dial_hz : ℕ
  pub split_enabled : Bool

pub record TransverterOffsets : Type 0 where
  pub rx_offset_hz : ℤ
  pub tx_offset_hz : ℤ

pub record ResolvedFrequencies : Type 0 where
  pub rx_dial_hz : ℕ
  pub tx_dial_hz : ℕ
  pub rx_rf_hz : ℕ
  pub tx_rf_hz : ℕ
  pub split_enabled : Bool

unfoldable pub add_signed_offset : ℕ → ℤ → Option ℕ
add_signed_offset frequency (pos positive) =
    if ltb (u64_max - positive) frequency
    then none
    else if frequency + positive == 0
    then none
    else some (frequency + positive)
add_signed_offset frequency (negsuc n) =
    if leb frequency (n + 1) then none else some (frequency - (n + 1))

abbrev pub tx_dial : VfoFrequencyPlan → ℕ
tx_dial plan = if plan.split_enabled then plan.tx_dial_hz else plan.rx_dial_hz

-- What follows the two additions.
unfoldable pub resolved_of : VfoFrequencyPlan → Option ℕ → Option ℕ → Option ResolvedFrequencies
resolved_of plan none tx_rf = none
resolved_of plan (some rx_rf) none = none
resolved_of plan (some rx_rf) (some tx_rf) = some (record {
  rx_dial_hz = plan.rx_dial_hz;
  tx_dial_hz = tx_dial plan;
  rx_rf_hz = rx_rf;
  tx_rf_hz = tx_rf;
  split_enabled = plan.split_enabled;
})

unfoldable pub resolve_frequencies :
    VfoFrequencyPlan → TransverterOffsets → Option ResolvedFrequencies
resolve_frequencies plan offsets =
    if plan.rx_dial_hz == 0
    then none
    else if tx_dial plan == 0
    then none
    else resolved_of plan (add_signed_offset plan.rx_dial_hz offsets.rx_offset_hz)
        (add_signed_offset (tx_dial plan) offsets.tx_offset_hz)

unfoldable pub resolve_dial_frequency : ℕ → ℤ → Option ℕ
resolve_dial_frequency actual_rf_hz (pos offset) =
    if actual_rf_hz == 0
    then none
    else if leb actual_rf_hz offset
    then none
    else some (actual_rf_hz - offset)
resolve_dial_frequency actual_rf_hz (negsuc n) =
    if actual_rf_hz == 0
    then none
    else if ltb (u64_max - (n + 1)) actual_rf_hz
    then none
    else some (actual_rf_hz + (n + 1))

pub data OmniRigRxFrequencyTarget : Type 0 where
  no_target frequency frequency_a frequency_b : OmniRigRxFrequencyTarget

-- A test of the bit of weight `bit`.
abbrev pub has_bit : ℕ → ℕ → Bool
has_bit mask bit = not (mask / bit % 2 == 0)

unfoldable pub omni_rig_conventional_vfo_target : Bool → Bool → Bool → ℕ → OmniRigRxFrequencyTarget
omni_rig_conventional_vfo_target vfo_published split_enabled transmit writable_parameters =
    if vfo_published
    then no_target
    else if not split_enabled
    then no_target
    else if not (has_bit writable_parameters (if transmit then 8 else 4))
    then no_target
    else if transmit
    then frequency_b
    else frequency_a

unfoldable pub omni_rig_active_vfo_is_receive_frequency : Bool → Bool → Bool
omni_rig_active_vfo_is_receive_frequency has_per_vfo_property split_enabled =
    if has_per_vfo_property then false else not split_enabled

abbrev pub receives_on_a : ℕ → Bool
receives_on_a vfo = vfo == 0x80 || (vfo == 0x100 || vfo == 0x800)

abbrev pub receives_on_b : ℕ → Bool
receives_on_b vfo = vfo == 0x200 || (vfo == 0x400 || vfo == 0x1000)

unfoldable pub select_omnirig_rx_frequency_target : Bool → Bool → ℕ → ℕ → OmniRigRxFrequencyTarget
select_omnirig_rx_frequency_target online receiving writable_parameters vfo =
    if not online || not receiving
    then no_target
    else if receives_on_a vfo && has_bit writable_parameters 4
    then frequency_a
    else if receives_on_b vfo && has_bit writable_parameters 8
    then frequency_b
    else if has_bit writable_parameters 2
    then frequency
    else no_target

abbrev pub value_or : Option ℕ → ℕ → ℕ
value_or none default = default
value_or (some n) default = n

unfoldable pub step_from : ℕ → ℕ → ℤ → Option ℕ
step_from base step_hz (pos n) =
    if leb base (u64_max - step_hz) then some (base + step_hz) else none
step_from base step_hz (negsuc n) = if ltb step_hz base then some (base - step_hz) else none

-- Is the direction -1 or 1?
abbrev pub is_direction : ℤ → Bool
is_direction (pos n) = n == 1
is_direction (negsuc n) = n == 0

unfoldable pub step_rx_frequency : ℕ → Option ℕ → ℕ → ℤ → Option ℕ
step_rx_frequency reported_rf_hz pending_rf_hz step_hz direction =
    if reported_rf_hz == 0 || (step_hz == 0 || not (is_direction direction))
    then none
    else step_from (value_or pending_rf_hz reported_rf_hz) step_hz direction

-- What the code uses of `double`.
pub record Doubles : Type 1 where
  pub Double : Type 0
  pub is_finite : Double → Bool
  pub minus : Double → Double → Double
  -- Is it at most the least, or at least the greatest, 64-bit signed number?
  pub at_most_least : Double → Bool
  pub at_least_greatest : Double → Bool
  pub llround : Double → ℤ

abbrev pub negated : ℤ → ℤ
negated (pos zero) = pos 0
negated (pos (suc n)) = negsuc n
negated (negsuc n) = pos (suc n)

module _ (d : Doubles) where
  open d use {Double, is_finite, minus, at_most_least, at_least_greatest, llround}

  unfoldable pub resolve_audio_tone_rf : ℕ → Double → Double → Bool → Option ℕ
  resolve_audio_tone_rf reference_rf_hz audio_tone_hz reference_tone_hz upper_sideband =
      let difference = minus audio_tone_hz reference_tone_hz in
      if reference_rf_hz == 0
        || (not (is_finite audio_tone_hz) || not (is_finite reference_tone_hz))
      then none
      else if at_most_least difference || at_least_greatest difference
      then none
      else add_signed_offset reference_rf_hz
          (if upper_sideband then llround difference else negated (llround difference))

pub record BandRange : Type 0 where
  pub lower_hz : ℕ
  pub upper_hz : ℕ
  pub name : Text

abbrev pub band : ℕ → ℕ → Text → BandRange
band lower upper name = record { lower_hz = lower; upper_hz = upper; name = name }

abbrev pub adif_bands : List BandRange
adif_bands =
    band 135700 137800 (codes "2190M")
    ∷ band 472000 479000 (codes "630M")
    ∷ band 501000 504000 (codes "560M")
    ∷ band 1800000 2000000 (codes "160M")
    ∷ band 3500000 4000000 (codes "80M")
    ∷ band 5060000 5450000 (codes "60M")
    ∷ band 7000000 7300000 (codes "40M")
    ∷ band 10100000 10150000 (codes "30M")
    ∷ band 14000000 14350000 (codes "20M")
    ∷ band 18068000 18168000 (codes "17M")
    ∷ band 21000000 21450000 (codes "15M")
    ∷ band 24890000 24990000 (codes "12M")
    ∷ band 28000000 29700000 (codes "10M")
    ∷ band 40000000 45000000 (codes "8M")
    ∷ band 50000000 54000000 (codes "6M")
    ∷ band 54000001 69900000 (codes "5M")
    ∷ band 70000000 71000000 (codes "4M")
    ∷ band 144000000 148000000 (codes "2M")
    ∷ band 222000000 225000000 (codes "1.25M")
    ∷ band 420000000 450000000 (codes "70CM")
    ∷ band 902000000 928000000 (codes "33CM")
    ∷ band 1240000000 1300000000 (codes "23CM")
    ∷ band 2300000000 2450000000 (codes "13CM")
    ∷ band 3300000000 3500000000 (codes "9CM")
    ∷ band 5650000000 5925000000 (codes "6CM")
    ∷ band 10000000000 10500000000 (codes "3CM")
    ∷ band 24000000000 24250000000 (codes "1.25CM")
    ∷ band 47000000000 47200000000 (codes "6MM")
    ∷ band 75500000000 81000000000 (codes "4MM")
    ∷ band 119980000000 123000000000 (codes "2.5MM")
    ∷ band 134000000000 149000000000 (codes "2MM")
    ∷ band 241000000000 250000000000 (codes "1MM")
    ∷ band 300000000000 7500000000000 (codes "SUBMM")
    ∷ []

unfoldable pub find_band : List BandRange → ℕ → Text
find_band [] frequency_hz = []
find_band (b ∷ bands) frequency_hz =
    if leb b.lower_hz frequency_hz && leb frequency_hz b.upper_hz
    then b.name
    else find_band bands frequency_hz

-- The empty text for a frequency in no band.
unfoldable pub adif_band_from_frequency : ℕ → Text
adif_band_from_frequency frequency_hz = find_band adif_bands frequency_hz
