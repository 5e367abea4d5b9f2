-- ===== src/Callsign.antt =====
-- src/core/src/callsign_policy.cpp and its header: the callsign syntax that every part of the
-- program goes through, and the operator's ignore list, an unordered set kept as a list without
-- repeats.
pub mod Normal
pub mod Ignored
use cw_buddy.Base.{
  ◌≡◌, Bool, true, false, ◌&&◌, ◌||◌, not, List, [], ◌∷◌, ◌++◌, ℕ, Option, none, some, ltb, leb,
  ◌==◌, if◌then◌else◌, reverse, length, is_empty, last?,
}
use cw_buddy.Text.{Text, is_alpha, is_digit, to_upper, text_eq}

-- The set " \t\r\n" that callsigns are trimmed by.
abbrev pub is_blank : ℕ → Bool
is_blank c = c == 32 || (c == 9 || (c == 13 || c == 10))

unfoldable pub drop_blank : Text → Text
drop_blank [] = []
drop_blank (c ∷ rest) = let tail = drop_blank rest in if is_blank c then tail else c ∷ rest

-- From `find_first_not_of` to `find_last_not_of`.
unfoldable pub trim : Text → Text
trim s = reverse (drop_blank (reverse (drop_blank s)))

-- The variables of the loop in `normalize`.
pub record Scan : Type 0 where
  pub normalized : Text
  pub has_letter : Bool
  pub has_digit : Bool
  pub previous_was_slash : Bool

abbrev pub scan_start : Scan
scan_start = record {
  normalized = [];
  has_letter = false;
  has_digit = false;
  previous_was_slash = false;
}

-- One character of the loop; `none` is `return std::nullopt`.
unfoldable pub scan_step : ℕ → Scan → Option Scan
scan_step c s =
    if is_alpha c
    then some (record s {
      normalized = s.normalized ++ to_upper c ∷ [];
      has_letter = true;
      previous_was_slash = false;
    })
    else if is_digit c
    then some (record s {
      normalized = s.normalized ++ c ∷ [];
      has_digit = true;
      previous_was_slash = false;
    })
    else if c == b'/' && (not (is_empty s.normalized) && not s.previous_was_slash)
    then some (record s { normalized = s.normalized ++ b'/' ∷ []; previous_was_slash = true })
    else none

unfoldable pub scan : Text → Scan → Option Scan
scan [] s = some s
scan (c ∷ rest) s = elim (scan_step c s) [ none ↦ none | some s' ↦ scan rest s' ]

abbrev pub ends_in_slash : Text → Bool
ends_in_slash s = elim (last? s) [ none ↦ false | some c ↦ c == b'/' ]

-- The tests after the loop.
unfoldable pub accept : Scan → Option Text
accept s =
    if not s.has_letter || (not s.has_digit || ends_in_slash s.normalized)
    then none
    else some s.normalized

unfoldable pub normalize_trimmed : Text → Option Text
normalize_trimmed trimmed =
    if ltb (length trimmed) 3 || ltb 16 (length trimmed)
    then none
    else elim (scan trimmed scan_start) [ none ↦ none | some s ↦ accept s ]

unfoldable pub normalize : Text → Option Text
normalize callsign =
    if is_empty (drop_blank callsign) then none else normalize_trimmed (trim callsign)

pub record CallsignPolicy : Type 0 where
  pub ignored : List Text

abbrev pub no_ignored : CallsignPolicy
no_ignored = record { ignored = [] }

unfoldable pub member : Text → List Text → Bool
member s [] = false
member s (x ∷ xs) = text_eq s x || member s xs

unfoldable pub erase : Text → List Text → List Text
erase s [] = []
erase s (x ∷ xs) = if text_eq s x then erase s xs else x ∷ erase s xs

unfoldable pub add_ignored : Text → CallsignPolicy → CallsignPolicy × Bool
add_ignored callsign p = elim (normalize callsign) [
  | none ↦ (p, false)
  | some n ↦ if member n p.ignored then (p, false) else (record { ignored = n ∷ p.ignored }, true)
]

unfoldable pub remove_ignored : Text → CallsignPolicy → CallsignPolicy × Bool
remove_ignored callsign p = elim (normalize callsign) [
  | none ↦ (p, false)
  | some n ↦
      if member n p.ignored then (record { ignored = erase n p.ignored }, true) else (p, false)
]

unfoldable pub is_ignored : CallsignPolicy → Text → Bool
is_ignored p callsign = elim (normalize callsign) [ none ↦ false | some n ↦ member n p.ignored ]
