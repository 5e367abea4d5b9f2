-- ===== src/Frequency/Parse.antt =====
-- `parse_frequency_value` and `format_frequency_mhz`.
pub mod Forms
pub mod Inversion
pub mod Numbers
pub mod Exact
pub mod RoundTrip
use cw_buddy.Base.{
  Bool, true, false, ◌&&◌, ◌||◌, not, [], ◌∷◌, ◌++◌, Option, none, some, ℕ, zero, suc, ◌+◌, ◌-◌,
  ◌*◌, ◌/◌, ◌%◌, ltb, leb, ◌==◌, if◌then◌else◌, u64_max, is_empty, reverse,
}
use cw_buddy.Text.{Text, is_digit, is_space}
use cw_buddy.Text.Decimal.{digit, to_string, padded}

-- The first loop: `precision_scale` and `maximum_fractional_digits`. Its rounds are bounded by the
-- scale, which each of them makes smaller.
unfoldable pub precision_loop : ℕ → ℕ → ℕ → ℕ × ℕ
precision_loop zero precision_scale digits = (precision_scale, digits)
precision_loop (suc fuel) precision_scale digits =
    let further = precision_loop fuel (precision_scale / 10) (digits + 1) in
    if ltb 1 precision_scale && precision_scale % 10 == 0
    then further
    else (precision_scale, digits)

-- `text.remove_prefix(1)` while the front is white space.
unfoldable pub trim_front : Text → Text
trim_front [] = []
trim_front (c ∷ t) = if is_space c then trim_front t else c ∷ t

-- `text.remove_suffix(1)` while the back is white space.
unfoldable pub trim : Text → Text
trim t = reverse (trim_front (reverse (trim_front t)))

pub record Reading : Type 0 where
  pub whole_units : ℕ
  pub fractional_hz : ℕ
  pub fractional_digits : ℕ
  pub saw_digit : Bool
  pub saw_separator : Bool

abbrev pub new_reading : Reading
new_reading = record {
  whole_units = 0;
  fractional_hz = 0;
  fractional_digits = 0;
  saw_digit = false;
  saw_separator = false;
}

unfoldable pub read_digit : ℕ → ℕ → Reading → Option Reading
read_digit maximum_fractional_digits d r =
    if not r.saw_separator
    then if ltb ((u64_max - d) / 10) r.whole_units
      then none
      else some (record r { whole_units = r.whole_units * 10 + d; saw_digit = true })
    else if leb maximum_fractional_digits r.fractional_digits
    then none
    else some (record r {
      fractional_hz = r.fractional_hz * 10 + d;
      fractional_digits = r.fractional_digits + 1;
      saw_digit = true;
    })

unfoldable pub read_character : ℕ → ℕ → Reading → Option Reading
read_character maximum_fractional_digits character r =
    if is_digit character
    then read_digit maximum_fractional_digits (digit character) r
    else if (character == b'.' || character == b',') && (not r.saw_separator && r.saw_digit)
    then some (record r { saw_separator = true })
    else none

unfoldable pub read_loop : ℕ → Text → Reading → Option Reading
read_loop maximum_fractional_digits [] r = some r
read_loop maximum_fractional_digits (character ∷ t) r =
    elim (read_character maximum_fractional_digits character r) [
      | none ↦ none
      | some r' ↦ read_loop maximum_fractional_digits t r'
    ]

-- The last loop: `fractional_hz` with `missing` more zeros.
unfoldable pub scaled : ℕ → ℕ → ℕ
scaled zero fractional_hz = fractional_hz
scaled (suc missing) fractional_hz = scaled missing (fractional_hz * 10)

-- The sum of the two parts.
unfoldable pub total_of : ℕ → ℕ → ℕ → Option ℕ
total_of unit_hz whole_units fractional_hz =
    if ltb ((u64_max - fractional_hz) / unit_hz) whole_units
    then none
    else if whole_units * unit_hz + fractional_hz == 0
    then none
    else some (whole_units * unit_hz + fractional_hz)

unfoldable pub value_of : ℕ → ℕ → Option Reading → Option ℕ
value_of unit_hz maximum_fractional_digits none = none
value_of unit_hz maximum_fractional_digits (some r) =
    if not r.saw_digit || (r.saw_separator && r.fractional_digits == 0)
    then none
    else total_of unit_hz r.whole_units
        (scaled (maximum_fractional_digits - r.fractional_digits) r.fractional_hz)

unfoldable pub parse_with : Text → ℕ → ℕ × ℕ → Option ℕ
parse_with text unit_hz (scale, maximum_fractional_digits) =
    if not (scale == 1)
    then none
    else if is_empty (trim text)
    then none
    else value_of unit_hz maximum_fractional_digits
        (read_loop maximum_fractional_digits (trim text) new_reading)

unfoldable pub parse_frequency_value : Text → ℕ → Option ℕ
parse_frequency_value text unit_hz =
    if unit_hz == 0 then none else parse_with text unit_hz (precision_loop unit_hz unit_hz 0)

unfoldable pub format_frequency_mhz : ℕ → Text
format_frequency_mhz frequency_hz =
    to_string (frequency_hz / 1000000) ++ b'.' ∷ padded 6 (frequency_hz % 1000000)
