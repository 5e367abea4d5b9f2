-- ===== src/Frequency/Parse/Exact.antt =====
-- `parse_frequency_value` against the decimal notation of a number.
use cw_buddy.Base.{
  ◌≡◌, refl, ap, ◌∙◌, ◌↔◌, ◌⊎◌, inl, inr, ℕ, ◌+◌, ◌-◌, ◌*◌, ◌^◌, ◌≤◌, ◌<◌, [], ◌∷◌, ◌++◌, none,
  some, true, false, arith, ◌==◌, if◌then◌else◌, u64_max, is_empty, length, Bool-cases,
  Option-cases,
}
use cw_buddy.Text.{Text}
use cw_buddy.Text.Decimal.{decimal, IsDigits, decimal-append}
use cw_buddy.Frequency.Parse.{
  precision_loop, trim, Reading, new_reading, read_loop, scaled, total_of, value_of, parse_with,
  parse_frequency_value,
}
use cw_buddy.Frequency.Parse.Forms.{
  whole_reading, split_reading, IsSeparator, read_integer, read_decimal,
}
use cw_buddy.Frequency.Parse.Inversion.{IsWholeForm, IsSplitForm, read_sound}
use cw_buddy.Frequency.Parse.Numbers.{
  pow_pos, le-pow, precision_loop-pow, scaled_lem, decimal_shift, total_of_lem, same_value,
  fraction_below,
}

-- The digits before and behind a decimal separator, which needs digits behind it.
abbrev pub HasForm : Text → Text → Text → Type 0
HasForm t front back =
    ((t ≡ front) × (back ≡ []))
    ⊎ ((separator : ℕ) × IsSeparator separator
        × (t ≡ front ++ separator ∷ back)
        × (is_empty back ≡ false))

-- The text denotes `n` in units of 10 ^ k.
abbrev pub IsNotation : ℕ → Text → ℕ → Type 0
IsNotation k t n =
    (front : Text) × (back : Text) × HasForm t front back
    × IsDigits front
    × (is_empty front ≡ false)
    × IsDigits back
    × (length back ≤ k)
    × (n * 10 ^ length back ≡ decimal 0 (front ++ back) * 10 ^ k)

parse_pow :
    (text : Text) (k : ℕ)
    → parse_frequency_value text (10 ^ k) ≡ (
        if is_empty (trim text)
        then none
        else value_of (10 ^ k) k (read_loop k (trim text) new_reading))
unfolding parse_frequency_value parse_with
parse_pow text k =
    let some_unit : (10 ^ k == 0) ≡ false = ground (arith, pow_pos k) in
    let loop : precision_loop (10 ^ k) (10 ^ k) 0 ≡ (1, k) =
      precision_loop-pow (10 ^ k) k 0 (le-pow k) ∙ ap (λ n. (1, n)) (omega arith) in
    rw (some_unit, loop, parse_with) refl

module _ (k : ℕ) where
  value_whole :
      (front : Text)
      → value_of (10 ^ k) k (some (whole_reading (decimal 0 front) true))
        ≡ total_of (10 ^ k) (decimal 0 front) (scaled (k - 0) 0)
  unfolding value_of
  value_whole front = refl

  value_split :
      (whole hz : ℕ) (back : Text)
      → is_empty back ≡ false
      → value_of (10 ^ k) k (some (split_reading whole hz (length back)))
        ≡ total_of (10 ^ k) whole (scaled (k - length back) hz)
  unfolding value_of
  value_split whole hz [] e = absurd (cc e)
  value_split whole hz (c ∷ back) e = ground arith

  -- What is computed from a number in decimal notation.
  form_value :
      (t front back : Text)
      → HasForm t front back
      → IsDigits front
      → is_empty front ≡ false
      → IsDigits back
      → length back ≤ k
      → decimal 0 front ≤ u64_max
      → value_of (10 ^ k) k (read_loop k t new_reading)
        ≡ total_of (10 ^ k) (decimal 0 front) (scaled (k - length back) (decimal 0 back))
  form_value t front back (inl (e, f)) d n b l h =
      rw (e, f, read_integer k front d n h) (value_whole front)
  form_value t front back (inr (separator, s, e, m)) d n b l h =
      rw (e, read_decimal k front back separator d n h s b l)
        (value_split (decimal 0 front) (decimal 0 back) back m)

  -- The equation of the notation, for the sum that is computed.
  sum_lem :
      (front back : Text) (n : ℕ)
      → length back ≤ k
      → (n ≡ decimal 0 front * 10 ^ k + scaled (k - length back) (decimal 0 back))
        ↔ (n * 10 ^ length back ≡ decimal 0 (front ++ back) * 10 ^ k)
  sum_lem front back n l =
      rw (scaled_lem, decimal-append, decimal_shift (decimal 0 front) back)
        (same_value k (length back) n (decimal 0 front) (decimal 0 back) l)

  hz_fits :
      (back : Text)
      → 10 ^ k ≤ u64_max
      → IsDigits back
      → length back ≤ k
      → scaled (k - length back) (decimal 0 back) ≤ u64_max
  hz_fits back u d l = omega (arith, u, fraction_below k back d l)

  -- A text in the form of a number has the value of the notation, where there is one.
  form_exact :
      (t front back : Text) (n : ℕ)
      → 10 ^ k ≤ u64_max
      → HasForm t front back
      → IsDigits front
      → is_empty front ≡ false
      → IsDigits back
      → length back ≤ k
      → decimal 0 front ≤ u64_max
      → (value_of (10 ^ k) k (read_loop k t new_reading) ≡ some n)
        ↔ ((0 < n) × (n ≤ u64_max) × (n * 10 ^ length back ≡ decimal 0 (front ++ back) * 10 ^ k))
  form_exact t front back n u f d m b l h =
      let total =
        total_of_lem (10 ^ k) (decimal 0 front) (scaled (k - length back) (decimal 0 back)) n
          (pow_pos k) (hz_fits back u b l) in
      let sums = sum_lem front back n l in
      rw (form_value t front back f d m b l h)
        (λ e. let (p, q, r) = total.0 e in (p, q, sums.0 r), λ (p, q, r). total.1 (p, q, sums.1 r))

  -- A text whose characters are all read, and to which a value is given, has the form of a number.
  abbrev HasNumber : Text → Type 0
  HasNumber t =
      (front : Text) × (back : Text) × HasForm t front back
      × IsDigits front
      × (is_empty front ≡ false)
      × IsDigits back
      × (length back ≤ k)
      × (decimal 0 front ≤ u64_max)

  number_of :
      (t : Text) (r : Reading) (n : ℕ)
      → is_empty t ≡ false
      → value_of (10 ^ k) k (some r) ≡ some n
      → IsWholeForm 0 false t r ⊎ IsSplitForm k 0 false t r
      → HasNumber t
  unfolding value_of
  number_of t r n some_text h (inl (d, l, is)) =
      (t, [], inl (refl, refl), d, some_text, tt, omega arith, l)
  number_of t r n some_text h (inr (front, [], separator, e, d, m, l, s, b, short, is)) =
      absurd (ground (arith, h, is))
  number_of t r n some_text h (inr (front, (c ∷ back), separator, e, d, m, l, s, b, short, is)) =
      (front, c ∷ back, inr (separator, s, e, refl), d, ground (arith, m), b, short, l)

  has_number :
      (t : Text) (n : ℕ)
      → is_empty t ≡ false
      → value_of (10 ^ k) k (read_loop k t new_reading) ≡ some n
      → HasNumber t
  unfolding value_of
  has_number t n some_text h = elim (Option-cases (read_loop k t new_reading)) [
    | inl e ↦ absurd (cc (rw e at h))
    | inr (r, e) ↦ number_of t r n some_text (rw e at h) (read_sound k t 0 false r (omega arith) e)
  ]

form_has_text :
    (t front back : Text) → HasForm t front back → is_empty front ≡ false → is_empty t ≡ false
form_has_text t [] back f m = absurd (cc m)
form_has_text t (c ∷ front) back (inl (e, b)) m = rw e refl
form_has_text t (c ∷ front) back (inr (separator, s, e, b)) m = rw e refl

-- The whole units are no more than the value.
whole_fits :
    (k : ℕ) (front back : Text) (n : ℕ)
    → length back ≤ k
    → n ≤ u64_max
    → n ≡ decimal 0 front * 10 ^ k + scaled (k - length back) (decimal 0 back)
    → decimal 0 front ≤ u64_max
whole_fits k front back n l q e = grind (arith, pow_pos k)

-- A value in a decimal unit of 10 ^ k hertz, below 2 ^ 64, is read exactly: the code gives `n` for
-- precisely the texts that, with white space around them or not, have digits, or digits, a point or
-- comma and at most k more digits, and that denote `n` in that unit, where `n` lies between 1 and
-- 2 ^ 64 - 1.
pub parse_frequency_value_lem :
    (text : Text) (k n : ℕ)
    → 10 ^ k ≤ u64_max
    → (parse_frequency_value text (10 ^ k) ≡ some n)
      ↔ ((0 < n) × (n ≤ u64_max) × IsNotation k (trim text) n)
parse_frequency_value_lem text k n u = elim (Bool-cases (is_empty (trim text))) [
  | inl e ↦ (
    λ h. absurd (cc (parse_pow text k, e, h)),
    λ (p, q, (front, back, f, d, m, b, l, r)).
        absurd (cc (e, form_has_text (trim text) front back f m)),
  )
  | inr e ↦
      rw (parse_pow, e)
        (
          λ h.
              let (front, back, f, d, m, b, l, fits) = has_number k (trim text) n e h in
              let (p, q, r) = (form_exact k (trim text) front back n u f d m b l fits).0 h in
              (p, q, (front, back, f, d, m, b, l, r)),
          λ (p, q, (front, back, f, d, m, b, l, r)).
              let sum = (sum_lem k front back n l).1 r in
              let fits = whole_fits k front back n l q sum in
              (form_exact k (trim text) front back n u f d m b l fits).1 (p, q, r),
        )
]
