-- ===== src/Adif/RoundTrip.antt =====
-- The text of a record, read by the reader of ADIF texts.
use cw_buddy.Base.{
  ◌≡◌, refl, sym, Bool, true, false, List, [], ◌∷◌, ◌++◌, some, ℕ, zero, suc, ◌≤◌, ◌<◌,
  if◌then◌else◌, is_empty, all_of, &&-eq-true, length, append_assoc, append-nil, arith, All,
  Bool-cases, inl, inr, u64_max, not,
}
use cw_buddy.Text.{Text, codes, text_eq, contains, split_at}
use cw_buddy.Text.Decimal.{IsDigits, to_string, decimal-to_string, to_string-IsDigits}
use cw_buddy.Adif.{QsoRecord, append_field, to_adif}
use cw_buddy.Adif.Reader.{Field, split_bytes, past, ◌>>=◌, read_field, read_adif}

-- The fields of a record in the order of the format.
abbrev pub fields_of : QsoRecord → List Field
fields_of r =
    (codes "CALL", r.callsign)
    ∷ (codes "QSO_DATE", r.qso_date)
    ∷ (codes "TIME_ON", r.time_on)
    ∷ (codes "BAND", r.band)
    ∷ (codes "BAND_RX", r.band_rx)
    ∷ (codes "MODE", r.mode)
    ∷ (codes "FREQ", r.frequency_mhz)
    ∷ (codes "FREQ_RX", r.frequency_rx_mhz)
    ∷ (codes "PROP_MODE", r.propagation_mode)
    ∷ (codes "SAT_NAME", r.satellite_name)
    ∷ (codes "SAT_MODE", r.satellite_mode)
    ∷ (codes "RST_SENT", r.rst_sent)
    ∷ (codes "RST_RCVD", r.rst_received)
    ∷ (codes "STATION_CALLSIGN", r.station_callsign)
    ∷ (codes "MY_RIG", r.station_rig)
    ∷ (codes "MY_ANTENNA", r.station_antenna)
    ∷ []

-- The fields with a value.
unfoldable pub with_value : List Field → List Field
with_value [] = []
with_value ((name, value) ∷ fields) =
    if is_empty value then with_value fields else (name, value) ∷ with_value fields

-- Without the bytes that end a name.
abbrev IsName : Text → Type 0
IsName name = (contains name b':' ≡ false)

split_at_skip :
    (stop : ℕ) (front back : Text)
    → contains front stop ≡ false
    → split_at stop (front ++ stop ∷ back) ≡ some (front, back)
unfolding split_at
split_at_skip stop [] back h = ground arith
split_at_skip stop (c ∷ front) back h = ground (arith, h, split_at_skip stop front back)

split_bytes_append :
    (front back : Text) → split_bytes (length front) (front ++ back) ≡ some (front, back)
unfolding split_bytes
split_bytes_append [] back = refl
split_bytes_append (c ∷ front) back = rw (split_bytes_append front back) refl

digits_have_none : (t : Text) → IsDigits t → contains t b'>' ≡ false
digits_have_none [] d = refl
digits_have_none (c ∷ t) (now, later) = ground (arith, now, digits_have_none t later)

past_same : (byte : ℕ) (t : Text) → past byte (byte ∷ t) ≡ some t
unfolding past
past_same byte t = ground arith

-- The text of one field.
abbrev field_text : Text → Text → Text
field_text name value =
    b'<' ∷ (name ++ b':' ∷ (to_string (length value) ++ b'>' ∷ (value ++ b' ' ∷ [])))

-- The same with what follows it.
abbrev field_before : Text → Text → Text → Text
field_before name value rest =
    b'<' ∷ (name ++ b':' ∷ (to_string (length value) ++ b'>' ∷ (value ++ b' ' ∷ rest)))

field_text-append :
    (name value rest : Text) → field_text name value ++ rest ≡ field_before name value rest
field_text-append name value rest = simp append_assoc

read_field_before :
    (name value rest : Text)
    → contains name b':' ≡ false
    → length value ≤ u64_max
    → read_field (field_before name value rest) ≡ some ((name, value), rest)
unfolding read_field
read_field_before name value rest n h =
    let values = value ++ b' ' ∷ rest in
    let counted = to_string (length value) ++ b'>' ∷ values in
    let digits : contains (to_string (length value)) b'>' ≡ false =
      digits_have_none (to_string (length value)) (to_string-IsDigits (length value)) in
    rw
      (
        past_same b'<' (name ++ b':' ∷ counted),
        split_at_skip b':' name counted n,
        split_at_skip b'>' (to_string (length value)) values digits,
        decimal-to_string (length value) h,
        split_bytes_append value (b' ' ∷ rest),
        past_same b' ' rest,
        ◌>>=◌,
      )
      refl

-- The fields as the code writes them.
piece : Field → Text
piece (name, value) = if is_empty value then [] else field_text name value

pieces : List Field → Text
pieces [] = []
pieces (field ∷ fields) = piece field ++ pieces fields

append_field_lem :
    (output name value : Text) → append_field output name value ≡ output ++ piece (name, value)
unfolding append_field piece
append_field_lem output name value = elim (Bool-cases (is_empty value)) [
  | inl e ↦ rw e (sym (append-nil output))
  | inr e ↦ rw e (simp append_assoc)
]

to_adif-pieces : (r : QsoRecord) → to_adif r ≡ pieces (fields_of r) ++ codes "<EOR>"
unfolding to_adif pieces
to_adif-pieces r = simp (append_field_lem, append_assoc, append-nil)

abbrev is_name : Field → Bool
is_name (name, value) = not (contains name b':')

-- No value is longer than the code can count.
abbrev pub HasShortValues : List Field → Type 0
HasShortValues fields = All (λ field. length field.1 ≤ u64_max) fields

pieces_none :
    (name value : Text) (fields : List Field)
    → is_empty value ≡ true
    → pieces ((name, value) ∷ fields) ≡ pieces fields
unfolding pieces piece
pieces_none name value fields e = rw e refl

read_end : (rounds : ℕ) → read_adif (suc rounds) (codes "<EOR>") ≡ some []
unfolding read_adif read_field past split_at text_eq
read_end rounds = refl

read_further :
    (rounds : ℕ) (t rest : Text) (field : Field) (fields : List Field)
    → read_field t ≡ some (field, rest)
    → read_adif rounds rest ≡ some fields
    → read_adif (suc rounds) t ≡ some (field ∷ fields)
unfolding read_adif
read_further rounds t rest field fields e h = rw (e, h, read_adif) refl

pieces_some :
    (name value : Text) (fields : List Field)
    → is_empty value ≡ false
    → pieces ((name, value) ∷ fields) ++ codes "<EOR>"
      ≡ field_before name value (pieces fields ++ codes "<EOR>")
unfolding pieces piece
pieces_some name value fields e = rw e (simp append_assoc)

read_pieces :
    (fields : List Field) (rounds : ℕ)
    → length fields < rounds
    → all_of is_name fields ≡ true
    → HasShortValues fields
    → read_adif rounds (pieces fields ++ codes "<EOR>") ≡ some (with_value fields)
unfolding with_value pieces
read_pieces fields zero h n l = absurd (omega (arith, h))
read_pieces [] (suc rounds) h n l = read_end rounds
read_pieces ((name, value) ∷ fields) (suc rounds) h n (l, ls) =
    let (named, others) = &&-eq-true (is_name (name, value)) (all_of is_name fields) n in
    elim (Bool-cases (is_empty value)) [
      | inl e ↦
          rw (pieces_none name value fields e, e)
            (read_pieces fields (suc rounds) (omega (arith, h)) others ls)
      | inr e ↦
          rw (pieces_some name value fields e, e)
            (read_further rounds (field_before name value (pieces fields ++ codes "<EOR>"))
              (pieces fields ++ codes "<EOR>") (name, value) (with_value fields)
              (read_field_before name value (pieces fields ++ codes "<EOR>") (ground (arith, named))
                l)
              (read_pieces fields rounds (omega (arith, h)) others ls))
    ]

-- Whatever bytes the values of a record have, markup of the format included, a reader of ADIF texts
-- that goes by the lengths finds exactly the fields with a value in the text of the record, each
-- under its name, in order and unchanged, where no value is longer than 2 ^ 64 - 1.
pub read_adif-to_adif :
    (r : QsoRecord)
    → HasShortValues (fields_of r)
    → read_adif 17 (to_adif r) ≡ some (with_value (fields_of r))
read_adif-to_adif r h = rw (to_adif-pieces r) (read_pieces (fields_of r) 17 (omega arith) refl h)
