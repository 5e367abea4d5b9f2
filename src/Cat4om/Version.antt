-- ===== src/Cat4om/Version.antt =====
-- The protocol versions of src/core/src/cat4om_protocol.cpp.
use cw_buddy.Base.{
  ◌≡◌, refl, Bool, true, false, ◌||◌, [], ◌∷◌, Option, none, some, ℕ, ◌+◌, ◌*◌, ◌/◌, ◌-◌, ◌≤◌, ◌==◌,
  ltb, if◌then◌else◌, is_empty, arith, Bool-cases, inl, inr, sym, ap, ◌∙◌, ◌↔◌,
}
use cw_buddy.Text.Decimal.{digit, decimal, IsDigits, decimal_grows}
use cw_buddy.Text.{Text, codes, text_eq, is_digit}

-- `std::numeric_limits<unsigned int>::max()`.
abbrev pub unsigned_max : ℕ
unsigned_max = 4294967295

-- The loop of `protocol_major` from a value on.
unfoldable pub major_loop : ℕ → Text → Option ℕ
major_loop value [] = some value
major_loop value (character ∷ rest) =
    let further = major_loop (value * 10 + digit character) rest in
    if ltb character b'0' || ltb b'9' character
    then none
    else if ltb ((unsigned_max - digit character) / 10) value
    then none
    else further

-- `substr(0, find('.'))`: all of it without a dot.
unfoldable pub before_dot : Text → Text
before_dot [] = []
before_dot (c ∷ rest) = if c == b'.' then [] else c ∷ before_dot rest

unfoldable pub protocol_major : Text → Option ℕ
protocol_major version =
    if is_empty (before_dot version) then none else major_loop 0 (before_dot version)

abbrev pub option_eq : Option ℕ → Option ℕ → Bool
option_eq none none = true
option_eq none (some m) = false
option_eq (some n) none = false
option_eq (some n) (some m) = n == m

unfoldable pub cat4om_protocol_compatible : Text → Bool
cat4om_protocol_compatible version =
    option_eq (protocol_major version) (protocol_major (codes "1.0.0"))

pub data Cat4OmRole : Type 0 where
  observer slave master unknown_role : Cat4OmRole

unfoldable pub cat4om_role_from_string : Text → Cat4OmRole
cat4om_role_from_string role =
    if text_eq role (codes "observer")
    then observer
    else if text_eq role (codes "slave")
    then slave
    else if text_eq role (codes "master")
    then master
    else unknown_role

major_loop_complete :
    (value : ℕ) (t : Text)
    → IsDigits t
    → decimal value t ≤ unsigned_max
    → major_loop value t ≡ some (decimal value t)
unfolding major_loop
major_loop_complete value [] d h = refl
major_loop_complete value (c ∷ t) d h = ground (
  arith,
  major_loop_complete (value * 10 + digit c) t d.1 h,
  decimal_grows (value * 10 + digit c) t,
  d.0,
  h,
)

-- The step of the loop, when it goes on.
goes_on :
    (value c n : ℕ) (rest : Option ℕ)
    → (if ltb c b'0' || ltb b'9' c
        then none
        else if ltb ((unsigned_max - digit c) / 10) value
        then none
        else rest)
      ≡ some n
    → (is_digit c ≡ true) × (value * 10 + digit c ≤ unsigned_max) × (rest ≡ some n)
goes_on value c n rest h = ground (arith, h)

major_loop_sound :
    (value n : ℕ) (t : Text)
    → value ≤ unsigned_max
    → major_loop value t ≡ some n
    → IsDigits t × (decimal value t ≤ unsigned_max) × (n ≡ decimal value t)
unfolding major_loop
major_loop_sound value n [] h e = (tt, h, sym (cc e))
major_loop_sound value n (c ∷ t) h e =
    let g = goes_on value c n (major_loop (value * 10 + digit c) t) e in
    let r = major_loop_sound (value * 10 + digit c) n t g.1 g.2 in ((g.0, r.0), r.1, r.2)

-- The major version of a version text is the number before its first dot, or of all of it without a
-- dot: there is one exactly if that part is not empty, has only digits and fits into 32 bits.
pub protocol_major_lem :
    (version : Text) (n : ℕ)
    → (protocol_major version ≡ some n) ↔ (
        (is_empty (before_dot version) ≡ false)
        × IsDigits (before_dot version)
        × (decimal 0 (before_dot version) ≤ unsigned_max)
        × (n ≡ decimal 0 (before_dot version)))
unfolding protocol_major
protocol_major_lem version n = elim (Bool-cases (is_empty (before_dot version))) [
  | inl e ↦ rw e (λ h. absurd (cc h), λ h. absurd (cc h.0))
  | inr e ↦ rw e (
    λ h. let r = major_loop_sound 0 n (before_dot version) (omega arith) h in (refl, r.0, r.1, r.2),
    λ h. major_loop_complete 0 (before_dot version) h.1 h.2 ∙ ap some (sym h.3),
  )
]
