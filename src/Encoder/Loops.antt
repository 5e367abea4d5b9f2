-- ===== src/Encoder/Loops.antt =====
-- The loop of `encode` in src/core/src/cw_transmit_encoder.cpp, on any text: the spans alternate,
-- and their number of units is bounded by the length of the text.
use cw_buddy.Base.{
  subst, ◌≡◌, refl, ◌⊎◌, Bool, true, List, [], ◌∷◌, ◌++◌, ℕ, zero, suc, ◌+◌, ◌*◌, ◌≤◌, Option, some,
  leb, ◌==◌, length, arith, inl, inr, Option-cases, Bool-cases, leb→le, all_of,
}
use cw_buddy.Text.{Text, split_at}
use cw_buddy.Morse.{
  MorseEntry, ProsignEntry, morse_table, prosign_table, find_character, find_prosign, elements_for,
  prosign_elements,
}
use cw_buddy.Encoder.{Span, emit, Loop, encode_here, encode_step, encode_loop}
use cw_buddy.Encoder.Spans.{
  Alternates, polarity, IsOpen, IsAfter, element_spans, gap_spans, emit_lem,
}

-- The exact sum of the durations.
abbrev pub units : List Span → ℕ
units [] = 0
units (s ∷ rest) = s.duration_units + units rest

units-append : (xs ys : List Span) → units (xs ++ ys) ≡ units xs + units ys
units-append [] ys = omega arith
units-append (x ∷ xs) ys = omega (arith, units-append xs ys)

abbrev is_short : Text → Bool
is_short es = leb (units (element_spans es)) 23

find_character_short :
    (c : ℕ) (table : List MorseEntry)
    → all_of (λ row. is_short row.elements) table ≡ true
    → is_short (find_character c table) ≡ true
unfolding find_character
find_character_short c [] h = refl
find_character_short c (row ∷ table) h = ground (arith, find_character_short c table)

find_prosign_short :
    (name : Text) (table : List ProsignEntry)
    → all_of (λ row. is_short row.elements) table ≡ true
    → is_short (find_prosign name table) ≡ true
unfolding find_prosign
find_prosign_short name [] h = refl
find_prosign_short name (row ∷ table) h = ground (arith, find_prosign_short name table)

elements_for_short : (c : ℕ) → units (element_spans (elements_for c)) ≤ 23
unfolding elements_for morse_table
elements_for_short c = leb→le _ _ (find_character_short c morse_table refl)

prosign_elements_short : (name : Text) → units (element_spans (prosign_elements name)) ≤ 23
unfolding prosign_elements prosign_table
prosign_elements_short name = leb→le _ _ (find_prosign_short name prosign_table refl)

pub length-split_at :
    (stop : ℕ) (s name after : Text)
    → split_at stop s ≡ some (name, after)
    → length s ≡ length name + 1 + length after
unfolding split_at
length-split_at stop [] name after h = ground arith
length-split_at stop (c ∷ s) name after h = elim (Bool-cases (c == stop)) [
  | inl e ↦ ground arith
  | inr e ↦ elim (Option-cases (split_at stop s)) [
    | inl f ↦ ground arith
    | inr ((n, a), f) ↦ ground (arith, length-split_at stop s n a f)
  ]
]

-- The loop's invariant, at the text left: a keyed span may follow, unless what is left is passed
-- over.
pub record IsRunning (left : Text) (l : Loop) : Type 0 where
  pub alternates : Alternates true l.spans
  pub open_or_done : (polarity true l.spans ≡ true) ⊎ (length left ≤ l.skip)

gap_short : (next : Text) → units (gap_spans next) ≤ 7
gap_short [] = omega arith
gap_short (c ∷ next) = ground arith

-- What a character or prosign did to the spans `before`.
abbrev IsEmitted : List Span → Text → List Span → Type 0
IsEmitted before next spans = IsAfter next spans × (units spans ≤ units before + 30)

emitted :
    (before : List Span) (es next : Text)
    → IsOpen before
    → units (element_spans es) ≤ 23
    → IsAfter next (before ++ (element_spans es ++ gap_spans next))
    → IsEmitted before next (before ++ (element_spans es ++ gap_spans next))
emitted before es next a b f = (
  f,
  omega (
    arith,
    units-append before (element_spans es ++ gap_spans next),
    units-append (element_spans es) (gap_spans next),
    gap_short next,
  ),
)

emit-IsEmitted :
    (before : List Span) (es next : Text) (spans : List Span)
    → IsOpen before
    → units (element_spans es) ≤ 23
    → emit before es next ≡ some spans
    → IsEmitted before next spans
unfolding emit
emit-IsEmitted before [] next spans a b h = ground arith
emit-IsEmitted before (e ∷ es) next spans a b h =
    let (made, after) = emit_lem before (e ∷ es) next a refl in
    let same : before ++ (element_spans (e ∷ es) ++ gap_spans next) ≡ spans = cc made in
    rw same at (emitted before (e ∷ es) next a b after)

IsAfter-running :
    (next : Text) (spans : List Span)
    → IsAfter next spans
    → Alternates true spans × ((polarity true spans ≡ true) ⊎ (length next ≡ 0))
IsAfter-running [] spans a = (a.0, inr refl)
IsAfter-running (c ∷ next) spans a = (a.0, inl a.1)

-- What one round of the loop keeps and how many units it may add.
abbrev StepOk : Text → Loop → Loop → Type 0
StepOk rest l l' = IsRunning rest l' × (units l'.spans ≤ units l.spans + 30)

StepOk-of_emit :
    (rest next : Text) (l : Loop) (skip : ℕ) (previous : Option ℕ) (spans : List Span)
    → IsEmitted l.spans next spans
    → (length next ≡ 0 → length rest ≤ skip)
    → StepOk rest l (record { spans = spans; skip = skip; previous = previous })
StepOk-of_emit rest next l skip previous spans e h =
    let after = IsAfter-running next spans e.0 in
    (
      record {
        alternates = after.0;
        open_or_done = elim after.1 [ inl p ↦ inl p | inr q ↦ inr (h q) ];
      },
      e.1,
    )

encode_here-StepOk :
    (c : ℕ) (rest : Text) (l l' : Loop)
    → IsOpen l.spans
    → encode_here c rest l ≡ some l'
    → StepOk rest l l'
unfolding encode_here
encode_here-StepOk c rest l l' o h = elim (Bool-cases (c == 32)) [
  | inl e ↦ ground arith
  | inr e ↦ elim (Bool-cases (c == b'<')) [
    | inl f ↦ elim (Option-cases (split_at b'>' rest)) [
      | inl g ↦ ground arith
      | inr ((name, after), g) ↦ elim (Option-cases (emit l.spans (prosign_elements name) after)) [
        | inl k ↦ ground arith
        | inr (spans, k) ↦
            let done = emit-IsEmitted l.spans _ after spans o (prosign_elements_short name) k in
            let size = length-split_at b'>' rest name after g in
            let l-eq : record { spans = spans; skip = length name + 1; previous = some c } ≡ l' =
              ground arith in
            subst (λ m. StepOk rest l m) l-eq
              (StepOk-of_emit rest after l (length name + 1) (some c) spans done (λ z. omega arith))
      ]
    ]
    | inr f ↦ elim (Option-cases (emit l.spans (elements_for c) rest)) [
      | inl k ↦ ground arith
      | inr (spans, k) ↦
          let done = emit-IsEmitted l.spans _ rest spans o (elements_for_short c) k in
          let l-eq : record { spans = spans; skip = 0; previous = some c } ≡ l' = ground arith in
          subst (λ m. StepOk rest l m) l-eq
            (StepOk-of_emit rest rest l 0 (some c) spans done (λ z. omega arith))
    ]
  ]
]

encode_step-StepOk :
    (k c : ℕ) (rest : Text) (l l' : Loop)
    → l.skip ≡ k
    → IsRunning (c ∷ rest) l
    → encode_step k c rest l ≡ some l'
    → StepOk rest l l'
unfolding encode_step
encode_step-StepOk zero c rest l l' z r h = encode_here-StepOk c rest l l' (ground arith) h
encode_step-StepOk (suc k) c rest l l' z r h = ground arith

-- Over any text that the loop accepts, the invariant holds at the end, and each character adds at
-- most thirty units.
pub encode_loop-IsRunning :
    (t : Text) (l l' : Loop)
    → IsRunning t l
    → encode_loop t l ≡ some l'
    → IsRunning [] l' × (units l'.spans ≤ units l.spans + 30 * length t)
unfolding encode_loop
encode_loop-IsRunning [] l l' r h = ground arith
encode_loop-IsRunning (c ∷ t) l l' r h = elim (Option-cases (encode_step l.skip c t l)) [
  | inl e ↦ ground arith
  | inr (m, e) ↦
      let (keeps, adds) = encode_step-StepOk l.skip c t l m refl r e in
      let (last, sum) = encode_loop-IsRunning t m l' keeps (ground arith) in (last, omega arith)
]
