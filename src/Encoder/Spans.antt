-- ===== src/Encoder/Spans.antt =====
-- What `append_span` and its callers in src/core/src/cw_transmit_encoder.cpp do to a list of spans
-- that alternates between key down and key up.
use cw_buddy.Base.{
  ◌≡◌, refl, ap, ◌∙◌, Bool, true, false, not, List, [], ◌∷◌, ◌++◌, ℕ, ◌≤◌, ◌<◌, some, ◌==◌,
  if◌then◌else◌, is_empty, last?, arith, inl, inr, Option-cases, append_assoc, append-nil,
}
use cw_buddy.Text.{Text}
use cw_buddy.Encoder.{Span, span, append_span, append_elements, append_gap, emit, element_units}

abbrev pub unit_limit : Bool → ℕ
unit_limit true = 3
unit_limit false = 7

-- The spans alternate, the first being `key`; each lasts at least one unit, at most three with the
-- key down and at most seven with the key up.
abbrev pub Alternates : Bool → List Span → Type 0
Alternates key [] = Unit
Alternates key (s ∷ rest) =
    (s.key_down ≡ key)
    × (0 < s.duration_units)
    × (s.duration_units ≤ unit_limit key)
    × Alternates (not key) rest

-- What the span after the list has to be, if the first one is `key`.
abbrev pub polarity : Bool → List Span → Bool
polarity key [] = key
polarity key (s ∷ rest) = polarity (not key) rest

pub polarity-snoc :
    (key : Bool) (xs : List Span) (s : Span) → polarity key (xs ++ s ∷ []) ≡ not (polarity key xs)
polarity-snoc key [] s = refl
polarity-snoc key (x ∷ xs) s = polarity-snoc (not key) xs s

pub Alternates-snoc :
    (key : Bool) (xs : List Span) (units : ℕ)
    → Alternates key xs
    → 0 < units
    → units ≤ unit_limit (polarity key xs)
    → Alternates key (xs ++ span (polarity key xs) units ∷ [])
Alternates-snoc key [] units a p l = (refl, p, l, tt)
Alternates-snoc key (x ∷ xs) units a p l =
    (a.0, a.1, a.2, Alternates-snoc (not key) xs units a.3 p l)

pub last?-polarity :
    (key : Bool) (xs : List Span) (s : Span)
    → Alternates key xs
    → last? xs ≡ some s
    → polarity key xs ≡ not s.key_down
last?-polarity key [] s a h = cc
last?-polarity key (x ∷ []) s a h = ground arith
last?-polarity key (x ∷ y ∷ xs) s a h = last?-polarity (not key) (y ∷ xs) s a.3 h

-- On such a list no span is merged: the new one is put behind it.
pub append_span_lem :
    (key : Bool) (xs : List Span) (units : ℕ)
    → Alternates true xs
    → polarity true xs ≡ key
    → 0 < units
    → append_span xs key units ≡ some (xs ++ span key units ∷ [])
unfolding append_span
append_span_lem key xs units a p h = elim (Option-cases (last? xs)) [
  | inl e ↦ ground arith
  | inr (s, e) ↦ ground (arith, last?-polarity true xs s a e)
]

-- The spans of one character.
abbrev pub element_spans : Text → List Span
element_spans [] = []
element_spans (e ∷ []) = span true (element_units e) ∷ []
element_spans (e ∷ f ∷ rest) = span true (element_units e) ∷ span false 1 ∷ element_spans (f ∷ rest)

-- The gap before the text `next`.
abbrev pub gap_spans : Text → List Span
gap_spans [] = []
gap_spans (c ∷ rest) = span false (if c == 32 then 7 else 3) ∷ []

-- A list on which a keyed span may follow.
abbrev pub IsOpen : List Span → Type 0
IsOpen xs = Alternates true xs × (polarity true xs ≡ true)

-- A list that ends in a keyed span.
abbrev pub IsKeyed : List Span → Type 0
IsKeyed xs = Alternates true xs × (polarity true xs ≡ false)

IsOpen-key :
    (xs : List Span) (units : ℕ)
    → IsOpen xs
    → 0 < units
    → units ≤ 3
    → IsKeyed (xs ++ span true units ∷ [])
IsOpen-key xs units a p l =
    ground (arith, Alternates-snoc true xs units a.0, polarity-snoc true xs (span true units))

pub IsKeyed-gap :
    (xs : List Span) (units : ℕ)
    → IsKeyed xs
    → 0 < units
    → units ≤ 7
    → IsOpen (xs ++ span false units ∷ [])
IsKeyed-gap xs units a p l =
    ground (arith, Alternates-snoc true xs units a.0, polarity-snoc true xs (span false units))

pub append_elements_lem :
    (xs : List Span) (e : ℕ) (es : Text)
    → IsOpen xs
    → (append_elements xs (e ∷ es) ≡ some (xs ++ element_spans (e ∷ es)))
      × IsKeyed (xs ++ element_spans (e ∷ es))
unfolding append_elements
append_elements_lem xs e [] a = (
  rw (append_span_lem true xs (element_units e) a.0 a.1 (ground arith), append_elements) refl,
  IsOpen-key xs (element_units e) a (ground arith) (ground arith),
)
append_elements_lem xs e (f ∷ es) a =
    let keyed = xs ++ span true (element_units e) ∷ [] in
    let k : IsKeyed keyed = IsOpen-key xs (element_units e) a (ground arith) (ground arith) in
    let o : IsOpen (keyed ++ span false 1 ∷ []) =
      IsKeyed-gap keyed 1 k (omega arith) (omega arith) in
    let rest = append_elements_lem (keyed ++ span false 1 ∷ []) f es o in
    let shape : (keyed ++ span false 1 ∷ []) ++ element_spans (f ∷ es)
        ≡ xs ++ element_spans (e ∷ f ∷ es) =
      append_assoc keyed _ _ ∙ append_assoc xs _ _ in
    (
      rw
          (
            append_span_lem true xs (element_units e) a.0 a.1 (ground arith),
            append_span_lem false keyed 1 k.0 k.1 (omega arith),
            append_elements,
          )
          (rest.0 ∙ ap some shape),
      rw shape at rest.1,
    )

-- What may follow a character, by the text after it.
abbrev pub IsAfter : Text → List Span → Type 0
IsAfter [] xs = IsKeyed xs
IsAfter (c ∷ rest) xs = IsOpen xs

append_gap_lem :
    (xs : List Span) (next : Text)
    → IsKeyed xs
    → (append_gap xs next ≡ some (xs ++ gap_spans next)) × IsAfter next (xs ++ gap_spans next)
unfolding append_gap
append_gap_lem xs [] k = (rw append-nil, rw append-nil k)
append_gap_lem xs (c ∷ next) k =
    let units : ℕ = if c == 32 then 7 else 3 in
    (
      append_span_lem false xs units k.0 k.1 (ground arith),
      IsKeyed-gap xs units k (ground arith) (ground arith),
    )

-- A character adds its spans and the gap before the next one.
pub emit_lem :
    (xs : List Span) (es next : Text)
    → IsOpen xs
    → is_empty es ≡ false
    → (emit xs es next ≡ some (xs ++ (element_spans es ++ gap_spans next)))
      × IsAfter next (xs ++ (element_spans es ++ gap_spans next))
unfolding emit
emit_lem xs [] next a h = cc
emit_lem xs (e ∷ es) next a h =
    let elements = append_elements_lem xs e es a in
    let gap = append_gap_lem (xs ++ element_spans (e ∷ es)) next elements.1 in
    let shape = append_assoc xs (element_spans (e ∷ es)) (gap_spans next) in
    (rw elements.0 (gap.0 ∙ ap some shape), rw shape at gap.1)
