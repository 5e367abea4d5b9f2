-- ===== src/Guard/Message.antt =====
-- `normalize_message` of src/core/src/transmit_guard.cpp. The loop over the characters is a
-- recursion on the text left; where the code moves its index on to the closing bracket of a
-- prosign, `skip` counts the characters that the loop passes over. `none` is `return {}` from
-- within the loop.
use cw_buddy.Base.{
  Bool, false, ◌||◌, not, [], ◌∷◌, ◌++◌, ℕ, zero, suc, ◌+◌, map, all_of, Option, none, some, ltb,
  leb, ◌==◌, if◌then◌else◌, length, is_empty,
}
use cw_buddy.Text.{Text, codes, contains, is_space, is_upper, is_digit, to_upper, split_at}
use cw_buddy.Morse.{is_transmittable_prosign}

-- The bytes `.,?'/!()&:;=+-"$@`.
abbrev pub supported_punctuation : Text
supported_punctuation = codes ".,?" ++ 39 ∷ codes "/!()&:;=+-" ++ 34 ∷ codes "$@"

abbrev pub maximum_message_characters : ℕ
maximum_message_characters = 512

abbrev pub is_supported : ℕ → Bool
is_supported c = is_upper c || (is_digit c || contains supported_punctuation c)

pub record Scan : Type 0 where
  pub result : Text
  pub pending_space : Bool
  pub skip : ℕ

-- `push_back(' ')` if a space is pending, then the token, then the test of the length.
unfoldable pub push_token : Text → ℕ → Scan → Option Scan
push_token token skip s =
    let result = s.result ++ (if s.pending_space then 32 ∷ token else token) in
    if ltb maximum_message_characters (length result)
    then none
    else some (record { result = result; pending_space = false; skip = skip })

unfoldable pub scan_prosign : Text → Scan → Option Scan
scan_prosign rest s = elim (split_at b'>' rest) [
  | none ↦ none
  | some (inner, after) ↦
      if not (all_of (λ c. leb c 127) inner) || not (is_transmittable_prosign (map to_upper inner))
      then none
      else push_token (b'<' ∷ (map to_upper inner ++ b'>' ∷ [])) (length inner + 1) s
]

-- One character that is not passed over, before the text `rest`.
unfoldable pub scan_here : ℕ → Text → Scan → Option Scan
scan_here raw rest s =
    if is_space raw
    then some (record s { pending_space = not (is_empty s.result) })
    else if ltb 127 raw
    then none
    else if to_upper raw == b'<'
    then scan_prosign rest s
    else if is_supported (to_upper raw)
    then push_token (to_upper raw ∷ []) 0 s
    else none

unfoldable pub scan_step : ℕ → ℕ → Text → Scan → Option Scan
scan_step zero raw rest s = scan_here raw rest s
scan_step (suc k) raw rest s = some (record s { skip = k })

unfoldable pub scan : Text → Scan → Option Scan
scan [] s = some s
scan (raw ∷ rest) s = elim (scan_step s.skip raw rest s) [ none ↦ none | some s' ↦ scan rest s' ]

abbrev pub scan_start : Scan
scan_start = record { result = []; pending_space = false; skip = 0 }

unfoldable pub normalize_message : Text → Text
normalize_message message = elim (scan message scan_start) [ none ↦ [] | some s ↦ s.result ]
