-- ===== src/Text/Decimal.antt =====
-- Decimal texts: `std::to_string` of an unsigned number, `std::setw` with zeros as the fill, and the
-- number that a text of digits stands for.
use native.Mathlib.Nat.{pow-suc}
use cw_buddy.Base.{
  ◌≡◌, refl, ℕ, zero, suc, ◌+◌, ◌-◌, ◌*◌, ◌/◌, ◌%◌, ◌^◌, ◌≤◌, ◌<◌, [], ◌∷◌, ◌++◌, arith, ltb,
  u64_max, if◌then◌else◌, All, All-append, length, length-append, true, Bool-cases, inl, inr, ◌∙◌,
  ap,
}
use cw_buddy.Text.{Text, is_digit}

abbrev pub digit : ℕ → ℕ
digit character = character - b'0'

-- The number that a text of digits stands for, from a value on.
abbrev pub decimal : ℕ → Text → ℕ
decimal value [] = value
decimal value (c ∷ t) = decimal (value * 10 + digit c) t

abbrev pub IsDigits : Text → Type 0
IsDigits t = All (λ c. is_digit c ≡ true) t

-- The digits of `n`, of which there are at most `rounds`.
unfoldable pub digits_of : ℕ → ℕ → Text
digits_of zero n = []
digits_of (suc rounds) n =
    let front = digits_of rounds (n / 10) in
    if ltb n 10 then (b'0' + n) ∷ [] else front ++ (b'0' + n % 10) ∷ []

-- A number below 2 ^ 64 has at most twenty digits.
unfoldable pub to_string : ℕ → Text
to_string n = digits_of 20 n

unfoldable pub zeros : ℕ → Text
zeros zero = []
zeros (suc n) = b'0' ∷ zeros n

-- `std::setw(width) << std::setfill('0') << n`.
unfoldable pub padded : ℕ → ℕ → Text
padded width n = zeros (width - length (to_string n)) ++ to_string n

pub decimal_grows : (value : ℕ) (t : Text) → value ≤ decimal value t
decimal_grows value [] = omega arith
decimal_grows value (c ∷ t) = omega (arith, decimal_grows (value * 10 + digit c) t)

pub decimal-append :
    (value : ℕ) (front back : Text)
    → decimal value (front ++ back) ≡ decimal (decimal value front) back
decimal-append value [] back = refl
decimal-append value (c ∷ front) back = decimal-append (value * 10 + digit c) front back

pub digits_of-IsDigits : (rounds n : ℕ) → IsDigits (digits_of rounds n)
unfolding digits_of
digits_of-IsDigits zero n = tt
digits_of-IsDigits (suc rounds) n = elim (Bool-cases (ltb n 10)) [
  | inl e ↦ rw e (ground arith, tt)
  | inr e ↦ rw e (
      All-append (λ c. is_digit c ≡ true) (digits_of rounds (n / 10)) ((b'0' + n % 10) ∷ [])
        (digits_of-IsDigits rounds (n / 10)) (ground arith, tt))
]

pub digits_of_pos : (rounds n : ℕ) → 0 < rounds → 0 < length (digits_of rounds n)
unfolding digits_of
digits_of_pos zero n h = absurd (omega arith)
digits_of_pos (suc rounds) n h = elim (Bool-cases (ltb n 10)) [
  | inl e ↦ rw e (omega arith)
  | inr e ↦ rw (e, length-append) (omega arith)
]

decimal-digits_of : (rounds n : ℕ) → n < 10 ^ rounds → decimal 0 (digits_of rounds n) ≡ n
unfolding digits_of
decimal-digits_of zero n h = omega (arith, h)
decimal-digits_of (suc rounds) n h = elim (Bool-cases (ltb n 10)) [
  | inl e ↦ rw e (ground arith)
  | inr e ↦ rw e (
      decimal-append 0 (digits_of rounds (n / 10)) ((b'0' + n % 10) ∷ [])
      ∙ rw (decimal-digits_of rounds (n / 10) (omega (arith, pow-suc 10 rounds))) (omega arith))
]

pub digits_of_short :
    (rounds width n : ℕ) → n < 10 ^ suc width → length (digits_of rounds n) ≤ suc width
unfolding digits_of
digits_of_short zero width n h = omega arith
digits_of_short (suc rounds) zero n h = ground (arith, h)
digits_of_short (suc rounds) (suc width) n h = elim (Bool-cases (ltb n 10)) [
  | inl e ↦ rw e (omega arith)
  | inr e ↦
      rw (e, length-append)
        (omega
          (arith, digits_of_short rounds width (n / 10) (omega (arith, h, pow-suc 10 (suc width)))))
]

-- The text of a number below 2 ^ 64 stands for the number.
pub decimal-to_string : (n : ℕ) → n ≤ u64_max → decimal 0 (to_string n) ≡ n
unfolding to_string
decimal-to_string n h = decimal-digits_of 20 n (omega (arith, h))

decimal-zeros : (count : ℕ) (t : Text) → decimal 0 (zeros count ++ t) ≡ decimal 0 t
unfolding zeros
decimal-zeros zero t = refl
decimal-zeros (suc count) t = decimal-zeros count t

length-zeros : (count : ℕ) → length (zeros count) ≡ count
unfolding zeros
length-zeros zero = refl
length-zeros (suc count) = ap suc (length-zeros count)

zeros-IsDigits : (count : ℕ) → IsDigits (zeros count)
unfolding zeros
zeros-IsDigits zero = tt
zeros-IsDigits (suc count) = (refl, zeros-IsDigits count)

pub decimal-padded : (width n : ℕ) → n ≤ u64_max → decimal 0 (padded width n) ≡ n
unfolding padded
decimal-padded width n h =
    decimal-zeros (width - length (to_string n)) (to_string n) ∙ decimal-to_string n h

pub padded-IsDigits : (width n : ℕ) → IsDigits (padded width n)
unfolding padded to_string
padded-IsDigits width n =
    All-append (λ c. is_digit c ≡ true) (zeros (width - length (digits_of 20 n))) (digits_of 20 n)
      (zeros-IsDigits _) (digits_of-IsDigits 20 n)

-- A number of at most `width` digits is padded to `width` digits.
pub length-padded : (width n : ℕ) → n < 10 ^ suc width → length (padded (suc width) n) ≡ suc width
unfolding padded to_string
length-padded width n h =
    length-append (zeros (suc width - length (digits_of 20 n))) (digits_of 20 n)
    ∙ omega
        (arith, length-zeros (suc width - length (digits_of 20 n)), digits_of_short 20 width n h)

pub to_string-IsDigits : (n : ℕ) → IsDigits (to_string n)
unfolding to_string
to_string-IsDigits n = digits_of-IsDigits 20 n
