-- ===== src/Frequency/Parse/Numbers.antt =====
-- Powers of ten, and the sums of `parse_frequency_value`.
use native.Mathlib.Nat.{
  pow-suc, mul_assoc, add-mul, eq_of_mul-eq-mul_right, mul-le-mul_right, le-div_iff_mul-le,
}
use cw_buddy.Base.{
  ◌≡◌, sym, ap, ◌∙◌, ◌↔◌, ℕ, zero, suc, ◌+◌, ◌-◌, ◌*◌, ◌/◌, ◌%◌, ◌^◌, ◌≤◌, ◌<◌, [], ◌∷◌, some, true,
  ◌&&◌, arith, ltb, ◌==◌, u64_max, length,
}
use cw_buddy.Text.{Text, is_digit}
use cw_buddy.Text.Decimal.{digit, decimal, IsDigits}
use cw_buddy.Frequency.Parse.{precision_loop, scaled, total_of}

pub pow_pos : (k : ℕ) → 0 < 10 ^ k
pow_pos zero = omega arith
pow_pos (suc k) = omega (arith, pow_pos k, pow-suc 10 k)

pub le-pow : (k : ℕ) → k ≤ 10 ^ k
le-pow zero = omega arith
le-pow (suc k) = omega (arith, le-pow k, pow_pos k, pow-suc 10 k)

-- The first loop ends at 1 for a power of ten, and has counted its zeros.
pub precision_loop-pow :
    (fuel k digits : ℕ) → k ≤ fuel → precision_loop fuel (10 ^ k) digits ≡ (1, digits + k)
unfolding precision_loop
precision_loop-pow zero zero digits h = ap (λ n. (1, n)) (omega arith)
precision_loop-pow zero (suc k) digits h = absurd (omega arith)
precision_loop-pow (suc fuel) zero digits h = ap (λ n. (1, n)) (omega arith)
precision_loop-pow (suc fuel) (suc k) digits h =
    let tenth : 10 ^ suc k / 10 ≡ 10 ^ k = omega (arith, pow-suc 10 k) in
    let more : (ltb 1 (10 ^ suc k) && 10 ^ suc k % 10 == 0) ≡ true =
      ground (arith, pow-suc 10 k, pow_pos k) in
    rw (more, tenth)
      (precision_loop-pow fuel k (digits + 1) (omega (arith, h)) ∙ ap (λ n. (1, n)) (omega arith))

ten_pow : (k : ℕ) → 10 * 10 ^ k ≡ 10 ^ suc k
ten_pow k = omega (arith, pow-suc 10 k)

pub scaled_lem : (missing hz : ℕ) → scaled missing hz ≡ hz * 10 ^ missing
unfolding scaled
scaled_lem zero hz = omega arith
scaled_lem (suc missing) hz =
    scaled_lem missing (hz * 10)
    ∙ mul_assoc hz 10 (10 ^ missing)
    ∙ ap (λ n. hz * n) (ten_pow missing)

pub decimal_shift : (value : ℕ) (t : Text) → decimal value t ≡ value * 10 ^ length t + decimal 0 t
decimal_shift value [] = omega arith
decimal_shift value (c ∷ t) = omega (
  arith,
  decimal_shift (value * 10 + digit c) t,
  decimal_shift (0 * 10 + digit c) t,
  add-mul (value * 10) (digit c) (10 ^ length t),
  add-mul (0 * 10) (digit c) (10 ^ length t),
  mul_assoc value 10 (10 ^ length t),
  ap (λ n. value * n) (ten_pow (length t)),
)

digit-le : (c : ℕ) → is_digit c ≡ true → digit c ≤ 9
digit-le c d = ground (arith, d)

pub decimal_below : (t : Text) → IsDigits t → decimal 0 t < 10 ^ length t
decimal_below [] d = omega arith
decimal_below (c ∷ t) (now, later) = omega (
  arith,
  decimal_shift (0 * 10 + digit c) t,
  decimal_below t later,
  add-mul (0 * 10) (digit c) (10 ^ length t),
  mul-le-mul_right (10 ^ length t) (digit-le c now),
  ten_pow (length t),
)

-- The bound that the code tests, and the sum.
pub total_of_lem :
    (unit whole hz n : ℕ)
    → 0 < unit
    → hz ≤ u64_max
    → (total_of unit whole hz ≡ some n) ↔ ((0 < n) × (n ≤ u64_max) × (n ≡ whole * unit + hz))
unfolding total_of
total_of_lem unit whole hz n p h = (
  λ e. ground (arith, e, (le-div_iff_mul-le {x = whole} {y = u64_max - hz} p).0),
  λ (l, m, is). ground (arith, l, m, is, (le-div_iff_mul-le {x = whole} {y = u64_max - hz} p).1),
)

pow_split : (k j : ℕ) → j ≤ k → 10 ^ k ≡ 10 ^ (k - j) * 10 ^ j
pow_split k zero h = let same : k - 0 ≡ k = omega arith in rw same (omega arith)
pow_split zero (suc j) h = absurd (omega arith)
pow_split (suc k) (suc j) h =
    let same : suc k - suc j ≡ k - j = omega arith in
    rw same (
      omega (
        arith,
        pow-suc 10 k,
        pow-suc 10 j,
        pow_split k j (omega (arith, h)),
        mul_assoc (10 ^ (k - j)) 10 (10 ^ j),
        mul_assoc (10 ^ (k - j)) (10 ^ j) 10,
        ap (λ n. 10 ^ (k - j) * n) (pow-suc 10 j),
      ))

regroup : (w f b j : ℕ) → (w * (b * j) + f * b) * j ≡ (w * j + f) * (b * j)
regroup w f b j = grind arith

-- The value of a number in decimal notation, with and without a division.
pub same_value :
    (k j n whole hz : ℕ)
    → j ≤ k
    → (n ≡ whole * 10 ^ k + hz * 10 ^ (k - j)) ↔ (n * 10 ^ j ≡ (whole * 10 ^ j + hz) * 10 ^ k)
same_value k j n whole hz h =
    let split = pow_split k j h in
    let equal : (whole * 10 ^ k + hz * 10 ^ (k - j)) * 10 ^ j ≡ (whole * 10 ^ j + hz) * 10 ^ k =
      rw split (regroup whole hz (10 ^ (k - j)) (10 ^ j)) in
    (
      λ e. ap (λ x. x * 10 ^ j) e ∙ equal,
      λ e.
          eq_of_mul-eq-mul_right (10 ^ j) (pow_pos j) n (whole * 10 ^ k + hz * 10 ^ (k - j))
            (e ∙ sym equal),
    )

pub fraction_below :
    (k : ℕ) (t : Text) → IsDigits t → length t ≤ k → scaled (k - length t) (decimal 0 t) < 10 ^ k
fraction_below k t d h =
    rw (scaled_lem, pow_split k (length t) h)
      (grind (arith, decimal_below t d, pow_pos (k - length t)))
