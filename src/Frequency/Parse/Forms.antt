-- ===== src/Frequency/Parse/Forms.antt =====
-- What the loop of `parse_frequency_value` reads from a number in decimal notation.
use cw_buddy.Base.{
  ◌≡◌, refl, ap, ◌∙◌, ◌⊎◌, inl, inr, ℕ, ◌+◌, ◌*◌, ◌≤◌, ◌<◌, [], ◌∷◌, ◌++◌, some, Bool, true, false,
  not, ◌||◌, arith, u64_max, is_empty, append-nil, length, subst,
}
use cw_buddy.Text.{Text, is_digit}
use cw_buddy.Text.Decimal.{digit, decimal, IsDigits, decimal_grows}
use cw_buddy.Frequency.Parse.{Reading, new_reading, read_digit, read_character, read_loop}

-- A number of whole units, and a separator and a number of further digits behind them.
abbrev pub whole_reading : ℕ → Bool → Reading
whole_reading whole saw = record {
  whole_units = whole;
  fractional_hz = 0;
  fractional_digits = 0;
  saw_digit = saw;
  saw_separator = false;
}

abbrev pub split_reading : ℕ → ℕ → ℕ → Reading
split_reading whole fractional_hz fractional_digits = record {
  whole_units = whole;
  fractional_hz = fractional_hz;
  fractional_digits = fractional_digits;
  saw_digit = true;
  saw_separator = true;
}

abbrev pub IsSeparator : ℕ → Type 0
IsSeparator c = (c ≡ b'.') ⊎ (c ≡ b',')

pub or_true : (b : Bool) → (b || true) ≡ true
or_true b = ground arith

module _ (maximum : ℕ) where
  read_whole_digit :
      (whole c : ℕ) (saw : Bool)
      → is_digit c ≡ true
      → whole * 10 + digit c ≤ u64_max
      → read_character maximum c (whole_reading whole saw)
        ≡ some (whole_reading (whole * 10 + digit c) true)
  unfolding read_character read_digit
  read_whole_digit whole c saw d h = ground (arith, d, h)

  read_fraction_digit :
      (whole hz digits c : ℕ)
      → is_digit c ≡ true
      → digits < maximum
      → read_character maximum c (split_reading whole hz digits)
        ≡ some (split_reading whole (hz * 10 + digit c) (digits + 1))
  unfolding read_character read_digit
  read_fraction_digit whole hz digits c d h = ground (arith, d, h)

  read_separator :
      (whole c : ℕ)
      → IsSeparator c
      → read_character maximum c (whole_reading whole true) ≡ some (split_reading whole 0 0)
  unfolding read_character
  read_separator whole c (inl e) = rw e refl
  read_separator whole c (inr e) = rw e refl

  -- A text of digits is read as its number, where that fits.
  read_whole :
      (t : Text) (whole : ℕ) (saw : Bool) (rest : Text)
      → IsDigits t
      → decimal whole t ≤ u64_max
      → (not (is_empty t) || saw) ≡ true
      → read_loop maximum (t ++ rest) (whole_reading whole saw)
        ≡ read_loop maximum rest (whole_reading (decimal whole t) true)
  unfolding read_loop
  read_whole [] whole saw rest d h e = ap (λ b. read_loop maximum rest (whole_reading whole b)) e
  read_whole (c ∷ t) whole saw rest (now, later) h e =
      rw
        (
          read_whole_digit whole c saw now
              (omega (arith, h, decimal_grows (whole * 10 + digit c) t)),
          read_loop,
        )
        (read_whole t (whole * 10 + digit c) true rest later h (or_true (not (is_empty t))))

  read_fraction :
      (t : Text) (whole hz digits : ℕ)
      → IsDigits t
      → digits + length t ≤ maximum
      → read_loop maximum t (split_reading whole hz digits)
        ≡ some (split_reading whole (decimal hz t) (digits + length t))
  unfolding read_loop
  read_fraction [] whole hz digits d h = ap (λ n. some (split_reading whole hz n)) (omega arith)
  read_fraction (c ∷ t) whole hz digits (now, later) h =
      rw (read_fraction_digit whole hz digits c now (omega (arith, h)), read_loop)
        (read_fraction t whole (hz * 10 + digit c) (digits + 1) later (omega (arith, h))
          ∙ ap (λ n. some (split_reading whole (decimal (hz * 10 + digit c) t) n)) (omega arith))

  -- The readings of the two forms of a number.
  pub read_integer :
      (front : Text)
      → IsDigits front
      → is_empty front ≡ false
      → decimal 0 front ≤ u64_max
      → read_loop maximum front new_reading ≡ some (whole_reading (decimal 0 front) true)
  unfolding read_loop
  read_integer front d e h =
      subst (λ t. read_loop maximum t new_reading ≡ some (whole_reading (decimal 0 front) true))
        (append-nil front) (read_whole front 0 false [] d h (rw e refl))

  pub read_decimal :
      (front back : Text) (separator : ℕ)
      → IsDigits front
      → is_empty front ≡ false
      → decimal 0 front ≤ u64_max
      → IsSeparator separator
      → IsDigits back
      → length back ≤ maximum
      → read_loop maximum (front ++ separator ∷ back) new_reading
        ≡ some (split_reading (decimal 0 front) (decimal 0 back) (length back))
  unfolding read_loop
  read_decimal front back separator d e h s b l =
      read_whole front 0 false (separator ∷ back) d h (rw e refl)
      ∙ rw (read_separator (decimal 0 front) separator s, read_loop)
          (read_fraction back (decimal 0 front) 0 0 b (omega (arith, l))
            ∙ ap (λ n. some (split_reading (decimal 0 front) (decimal 0 back) n)) (omega arith))
