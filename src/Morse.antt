-- ===== src/Morse.antt =====
-- The tables of src/core/src/cw_transmit_encoder.cpp: what each character and each prosign sends,
-- as texts of dots and dashes. A lookup that finds no row returns the empty text.
use cw_buddy.Base.{Bool, not, List, [], ◌∷◌, ℕ, ◌==◌, if◌then◌else◌, is_empty}
use cw_buddy.Text.{Text, codes, text_eq}

pub record MorseEntry : Type 0 where
  pub character : ℕ
  pub elements : Text

row : ℕ → Text → MorseEntry
row c e = record { character = c; elements = e }

unfoldable pub morse_table : List MorseEntry
unfolding row
morse_table =
    row b'A' (codes ".-")
    ∷ row b'B' (codes "-...")
    ∷ row b'C' (codes "-.-.")
    ∷ row b'D' (codes "-..")
    ∷ row b'E' (codes ".")
    ∷ row b'F' (codes "..-.")
    ∷ row b'G' (codes "--.")
    ∷ row b'H' (codes "....")
    ∷ row b'I' (codes "..")
    ∷ row b'J' (codes ".---")
    ∷ row b'K' (codes "-.-")
    ∷ row b'L' (codes ".-..")
    ∷ row b'M' (codes "--")
    ∷ row b'N' (codes "-.")
    ∷ row b'O' (codes "---")
    ∷ row b'P' (codes ".--.")
    ∷ row b'Q' (codes "--.-")
    ∷ row b'R' (codes ".-.")
    ∷ row b'S' (codes "...")
    ∷ row b'T' (codes "-")
    ∷ row b'U' (codes "..-")
    ∷ row b'V' (codes "...-")
    ∷ row b'W' (codes ".--")
    ∷ row b'X' (codes "-..-")
    ∷ row b'Y' (codes "-.--")
    ∷ row b'Z' (codes "--..")
    ∷ row b'0' (codes "-----")
    ∷ row b'1' (codes ".----")
    ∷ row b'2' (codes "..---")
    ∷ row b'3' (codes "...--")
    ∷ row b'4' (codes "....-")
    ∷ row b'5' (codes ".....")
    ∷ row b'6' (codes "-....")
    ∷ row b'7' (codes "--...")
    ∷ row b'8' (codes "---..")
    ∷ row b'9' (codes "----.")
    ∷ row b'.' (codes ".-.-.-")
    ∷ row b',' (codes "--..--")
    ∷ row b'?' (codes "..--..")
    ∷ row 39 (codes ".----.")
    ∷ row b'/' (codes "-..-.")
    ∷ row b'!' (codes "-.-.--")
    ∷ row b'(' (codes "-.--.")
    ∷ row b')' (codes "-.--.-")
    ∷ row b'&' (codes ".-...")
    ∷ row b':' (codes "---...")
    ∷ row b';' (codes "-.-.-.")
    ∷ row b'=' (codes "-...-")
    ∷ row b'+' (codes ".-.-.")
    ∷ row b'-' (codes "-....-")
    ∷ row 34 (codes ".-..-.")
    ∷ row b'$' (codes "...-..-")
    ∷ row b'@' (codes ".--.-.")
    ∷ row 32 (codes "")
    ∷ []

pub record ProsignEntry : Type 0 where
  pub name : Text
  pub elements : Text

prosign_row : Text → Text → ProsignEntry
prosign_row n e = record { name = n; elements = e }

unfoldable pub prosign_table : List ProsignEntry
unfolding prosign_row
prosign_table =
    prosign_row (codes "AR") (codes ".-.-.")
    ∷ prosign_row (codes "AS") (codes ".-...")
    ∷ prosign_row (codes "BK") (codes "-...-.-")
    ∷ prosign_row (codes "CT") (codes "-.-.-")
    ∷ prosign_row (codes "KN") (codes "-.--.")
    ∷ prosign_row (codes "SK") (codes "...-.-")
    ∷ prosign_row (codes "SOS") (codes "...---...")
    ∷ []

unfoldable pub find_prosign : Text → List ProsignEntry → Text
find_prosign name [] = []
find_prosign name (entry ∷ rest) =
    if text_eq entry.name name then entry.elements else find_prosign name rest

unfoldable pub prosign_elements : Text → Text
prosign_elements name = find_prosign name prosign_table

unfoldable pub find_character : ℕ → List MorseEntry → Text
find_character c [] = []
find_character c (entry ∷ rest) =
    if entry.character == c then entry.elements else find_character c rest

unfoldable pub elements_for : ℕ → Text
elements_for c = find_character c morse_table

unfoldable pub is_transmittable_prosign : Text → Bool
is_transmittable_prosign name = not (is_empty (prosign_elements name))
