-- ===== src/Frequency/Parse/Inversion.antt =====
-- The texts that the loop of `parse_frequency_value` reads to their end.
use cw_buddy.Base.{
  ◌≡◌, refl, ap, ◌∙◌, ◌⊎◌, inl, inr, ℕ, ◌+◌, ◌*◌, ◌≤◌, ◌<◌, [], ◌∷◌, ◌++◌, some, Bool, true, false,
  not, ◌||◌, arith, ==_iff, ◌==◌, u64_max, is_empty, length, Bool-cases, Option-cases,
}
use cw_buddy.Text.{Text, is_digit}
use cw_buddy.Text.Decimal.{digit, decimal, IsDigits}
use cw_buddy.Frequency.Parse.{Reading, read_digit, read_character, read_loop}
use cw_buddy.Frequency.Parse.Forms.{whole_reading, or_true, split_reading, IsSeparator}

abbrev pub IsWholeForm : ℕ → Bool → Text → Reading → Type 0
IsWholeForm whole saw t r =
    IsDigits t
    × (decimal whole t ≤ u64_max)
    × (r ≡ whole_reading (decimal whole t) (not (is_empty t) || saw))

abbrev pub IsSplitForm : ℕ → ℕ → Bool → Text → Reading → Type 0
IsSplitForm maximum whole saw t r =
    (front : Text) × (back : Text) × (separator : ℕ) × (t ≡ front ++ separator ∷ back)
    × IsDigits front
    × ((not (is_empty front) || saw) ≡ true)
    × (decimal whole front ≤ u64_max)
    × IsSeparator separator
    × IsDigits back
    × (length back ≤ maximum)
    × (r ≡ split_reading (decimal whole front) (decimal 0 back) (length back))

module _ (maximum : ℕ) where
  fraction_inv :
      (whole hz digits c : ℕ) (r : Reading)
      → read_character maximum c (split_reading whole hz digits) ≡ some r
      → (is_digit c ≡ true)
        × (digits < maximum)
        × (r ≡ split_reading whole (hz * 10 + digit c) (digits + 1))
  unfolding read_character read_digit
  fraction_inv whole hz digits c r h = ground (arith, h)

  whole_digit_inv :
      (whole c : ℕ) (saw : Bool) (r : Reading)
      → is_digit c ≡ true
      → read_character maximum c (whole_reading whole saw) ≡ some r
      → (whole * 10 + digit c ≤ u64_max) × (r ≡ whole_reading (whole * 10 + digit c) true)
  unfolding read_character read_digit
  whole_digit_inv whole c saw r d h = ground (arith, h, d)

  IsSeparator-inv :
      (whole c : ℕ) (saw : Bool) (r : Reading)
      → is_digit c ≡ false
      → read_character maximum c (whole_reading whole saw) ≡ some r
      → IsSeparator c × (saw ≡ true) × (r ≡ split_reading whole 0 0)
  unfolding read_character
  IsSeparator-inv whole c saw r d h = elim (Bool-cases (c == b'.')) [
    | inl e ↦ (inl ((==_iff c b'.').0 e), ground (arith, h, d), ground (arith, h, d))
    | inr e ↦ (inr (ground (arith, h, d, e)), ground (arith, h, d), ground (arith, h, d))
  ]

  loop_inv :
      (c : ℕ) (t : Text) (start r : Reading)
      → read_loop maximum (c ∷ t) start ≡ some r
      → (next : Reading) × (read_character maximum c start ≡ some next)
        × (read_loop maximum t next ≡ some r)
  unfolding read_loop
  loop_inv c t start r h = elim (Option-cases (read_character maximum c start)) [
    | inl e ↦ absurd (cc (rw (e, read_loop) at h))
    | inr (next, e) ↦ (next, e, rw (e, read_loop) at h)
  ]

  split_sound :
      (t : Text) (whole hz digits : ℕ) (r : Reading)
      → digits ≤ maximum
      → read_loop maximum t (split_reading whole hz digits) ≡ some r
      → IsDigits t
        × (digits + length t ≤ maximum)
        × (r ≡ split_reading whole (decimal hz t) (digits + length t))
  unfolding read_loop
  split_sound [] whole hz digits r l h = (tt, omega arith, ground (arith, h))
  split_sound (c ∷ t) whole hz digits r l h =
      let (next, e, rest) = loop_inv c t (split_reading whole hz digits) r h in
      let (d, below, is) = fraction_inv whole hz digits c next e in
      let (ds, within, ends) =
        split_sound t whole (hz * 10 + digit c) (digits + 1) r (omega (arith, below))
          (rw is at rest) in
      (
        (d, ds),
        omega (arith, within),
        ends ∙ ap (λ n. split_reading whole (decimal (hz * 10 + digit c) t) n) (omega arith),
      )

  -- A digit in front of a text that is read.
  digit_form :
      (t : Text) (whole c : ℕ) (saw : Bool) (r : Reading)
      → is_digit c ≡ true
      → IsWholeForm (whole * 10 + digit c) true t r
        ⊎ IsSplitForm maximum (whole * 10 + digit c) true t r
      → IsWholeForm whole saw (c ∷ t) r ⊎ IsSplitForm maximum whole saw (c ∷ t) r
  digit_form t whole c saw r d (inl (ds, h, is)) = inl (
    (d, ds),
    h,
    is ∙ ap (λ b. whole_reading (decimal (whole * 10 + digit c) t) b) (or_true (not (is_empty t))),
  )
  digit_form t whole c saw r d (inr (front, back, separator, e, ds, saws, h, s, bs, l, is)) =
      inr (c ∷ front, back, separator, ap (λ x. c ∷ x) e, (d, ds), refl, h, s, bs, l, is)

  pub read_sound :
      (t : Text) (whole : ℕ) (saw : Bool) (r : Reading)
      → whole ≤ u64_max
      → read_loop maximum t (whole_reading whole saw) ≡ some r
      → IsWholeForm whole saw t r ⊎ IsSplitForm maximum whole saw t r
  unfolding read_loop
  read_sound [] whole saw r l h = inl (tt, l, ground (arith, h))
  read_sound (c ∷ t) whole saw r l h =
      let (next, e, rest) = loop_inv c t (whole_reading whole saw) r h in
      elim (Bool-cases (is_digit c)) [
        | inl d ↦
            let (within, is) = whole_digit_inv whole c saw next d e in
            digit_form t whole c saw r d
              (read_sound t (whole * 10 + digit c) true r within (rw is at rest))
        | inr d ↦
            let (s, was, is) = IsSeparator-inv whole c saw next d e in
            let (ds, within, ends) = split_sound t whole 0 0 r (omega arith) (rw is at rest) in
            inr (
              [],
              t,
              c,
              refl,
              tt,
              was,
              l,
              s,
              ds,
              omega (arith, within),
              ends ∙ ap (λ n. split_reading whole (decimal 0 t) n) (omega arith),
            )
      ]
