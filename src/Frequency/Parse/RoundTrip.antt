-- ===== src/Frequency/Parse/RoundTrip.antt =====
-- Frequencies written in megahertz and read again.
use mathlib.Core.List.{reverse_aux, reverse-reverse}
use cw_buddy.Base.{
  All-append, ◌≡◌, refl, sym, inl, inr, ℕ, ◌/◌, ◌%◌, ◌≤◌, ◌<◌, [], ◌∷◌, some, false, arith, u64_max,
  is_empty, length, reverse, All, subst,
}
use cw_buddy.Text.{Text, is_space}
use cw_buddy.Text.Decimal.{
  decimal, IsDigits, decimal-append, to_string, digits_of, padded, digits_of_pos,
  to_string-IsDigits, padded-IsDigits, length-padded, decimal-to_string, decimal-padded,
}
use cw_buddy.Frequency.Parse.{trim_front, trim, parse_frequency_value, format_frequency_mhz}
use cw_buddy.Frequency.Parse.Numbers.{decimal_shift}
use cw_buddy.Frequency.Parse.Exact.{IsNotation, parse_frequency_value_lem}

abbrev HasNoSpace : Text → Type 0
HasNoSpace t = All (λ c. is_space c ≡ false) t

digits-HasNoSpace : (t : Text) → IsDigits t → HasNoSpace t
digits-HasNoSpace [] d = tt
digits-HasNoSpace (c ∷ t) (now, later) = (ground (arith, now), digits-HasNoSpace t later)

reverse_aux-HasNoSpace :
    (t done : Text) → HasNoSpace t → HasNoSpace done → HasNoSpace (reverse_aux t done)
reverse_aux-HasNoSpace [] done h k = k
reverse_aux-HasNoSpace (c ∷ t) done (now, later) k =
    reverse_aux-HasNoSpace t (c ∷ done) later (now, k)

trim_front_same : (t : Text) → HasNoSpace t → trim_front t ≡ t
unfolding trim_front
trim_front_same [] h = refl
trim_front_same (c ∷ t) (now, later) = rw now refl

trim_same : (t : Text) → HasNoSpace t → trim t ≡ t
unfolding trim
trim_same t h =
    rw (trim_front_same t h, trim_front_same (reverse t) (reverse_aux-HasNoSpace t [] h tt))
      (reverse-reverse t)

format-HasNoSpace : (frequency_hz : ℕ) → HasNoSpace (format_frequency_mhz frequency_hz)
unfolding format_frequency_mhz
format-HasNoSpace f =
    All-append (λ c. is_space c ≡ false) (to_string (f / 1000000)) (b'.' ∷ padded 6 (f % 1000000))
      (digits-HasNoSpace (to_string (f / 1000000)) (to_string-IsDigits (f / 1000000)))
      (refl, digits-HasNoSpace (padded 6 (f % 1000000)) (padded-IsDigits 6 (f % 1000000)))

some_text : (t : Text) → 0 < length t → is_empty t ≡ false
some_text [] h = absurd (omega (arith, h))
some_text (c ∷ t) h = refl

to_string_some : (n : ℕ) → is_empty (to_string n) ≡ false
unfolding to_string
to_string_some n = some_text (digits_of 20 n) (digits_of_pos 20 n (omega arith))

-- A frequency in hertz, written in megahertz with six decimals, is its notation in that unit.
format-IsNotation :
    (frequency_hz : ℕ)
    → frequency_hz ≤ u64_max
    → IsNotation 6 (format_frequency_mhz frequency_hz) frequency_hz
unfolding format_frequency_mhz
format-IsNotation f h =
    let six : length (padded 6 (f % 1000000)) ≡ 6 = length-padded 5 (f % 1000000) (omega arith) in
    (
      to_string (f / 1000000),
      padded 6 (f % 1000000),
      inr (b'.', inl refl, refl, some_text (padded 6 (f % 1000000)) (omega (arith, six))),
      to_string-IsDigits (f / 1000000),
      to_string_some (f / 1000000),
      padded-IsDigits 6 (f % 1000000),
      omega (arith, six),
      rw
          (
            decimal-append,
            decimal_shift (decimal 0 (to_string (f / 1000000))) (padded 6 (f % 1000000)),
            six,
            decimal-to_string (f / 1000000) (omega (arith, h)),
            decimal-padded 6 (f % 1000000) (omega arith),
          )
          (omega arith),
    )

-- A frequency from 1 to 2 ^ 64 - 1 that `format_frequency_mhz` writes in megahertz is read back
-- unchanged by `parse_frequency_value` with the unit of a megahertz: no hertz is lost.
pub parse_frequency_value-format_frequency_mhz :
    (frequency_hz : ℕ)
    → 0 < frequency_hz
    → frequency_hz ≤ u64_max
    → parse_frequency_value (format_frequency_mhz frequency_hz) 1000000 ≡ some frequency_hz
parse_frequency_value-format_frequency_mhz f p h =
    (parse_frequency_value_lem (format_frequency_mhz f) 6 f (omega arith)).1 (
      p,
      h,
      subst (λ t. IsNotation 6 t f) (sym (trim_same (format_frequency_mhz f) (format-HasNoSpace f)))
          (format-IsNotation f h),
    )
