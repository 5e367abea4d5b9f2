-- ===== src/Adif/Reader.antt =====
-- An independent reader of ADIF texts: `<NAME:LENGTH>` before a value of that many bytes, up to
-- `<EOR>`. It has no counterpart in the code, which only writes records.
use cw_buddy.Base.{List, [], ◌∷◌, Option, none, some, ℕ, zero, suc, if◌then◌else◌, ◌==◌}
use cw_buddy.Text.{Text, codes, text_eq, split_at}
use cw_buddy.Text.Decimal.{decimal}

abbrev pub Field : Type 0
Field = Text × Text

infixl 5 ◌>>=◌
abbrev pub ◌>>=◌ : {A B : Type 0} → Option A → (A → Option B) → Option B
none >>= f = none
some a >>= f = f a

-- The first `n` bytes and what follows them.
unfoldable pub split_bytes : ℕ → Text → Option (Text × Text)
split_bytes zero t = some ([], t)
split_bytes (suc n) [] = none
split_bytes (suc n) (c ∷ t) = do (front, back) ← split_bytes n t; some (c ∷ front, back)

-- Past one byte that has to be there.
unfoldable pub past : ℕ → Text → Option Text
past byte [] = none
past byte (c ∷ t) = if c == byte then some t else none

unfoldable pub read_field : Text → Option (Field × Text)
read_field t = do
  opened ← past b'<' t
  (name, counted) ← split_at b':' opened
  (count, values) ← split_at b'>' counted
  (value, behind) ← split_bytes (decimal 0 count) values
  rest ← past b' ' behind
  some ((name, value), rest)

-- The fields of one record, of which there are fewer than `rounds`.
unfoldable pub read_adif : ℕ → Text → Option (List Field)
read_adif zero t = none
read_adif (suc rounds) t = elim (read_field t) [
  | none ↦ if text_eq t (codes "<EOR>") then some [] else none
  | some (field, rest) ↦ elim (read_adif rounds rest) [
    | none ↦ none
    | some fields ↦ some (field ∷ fields)
  ]
]
