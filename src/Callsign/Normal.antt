-- ===== src/Callsign/Normal.antt =====
-- Callsign syntax, of `normalize` in src/core/src/callsign_policy.cpp.
use mathlib.Core.List.{reverse-reverse, reverse-cons}
use cw_buddy.Base.{
  ◌≡◌, refl, ◌∙◌, Bool, true, ◌||◌, [], ◌∷◌, ◌++◌, ℕ, none, some, ◌==◌, ◌≤◌, inl, inr,
  if◌then◌else◌, reverse, length, is_empty, all_of, map, arith, Option-cases, Bool-cases,
  append_assoc, sym, append-nil, length-map,
}
use cw_buddy.Text.{Text, is_alpha, is_upper, is_digit, to_upper}
use cw_buddy.Callsign.{
  drop_blank, trim, Scan, scan_start, scan_step, scan, accept, normalize_trimmed, normalize,
}

-- Letters in capitals, digits and slashes.
abbrev pub is_callsign_char : ℕ → Bool
is_callsign_char c = is_upper c || (is_digit c || c == b'/')

-- What one accepted character does to the scan.
abbrev after : ℕ → Scan → Scan
after c s = record {
  normalized = s.normalized ++ to_upper c ∷ [];
  has_letter = s.has_letter || is_alpha c;
  has_digit = s.has_digit || is_digit c;
  previous_was_slash = c == b'/';
}

scan_step-after :
    (c : ℕ) (s s' : Scan)
    → scan_step c s ≡ some s'
    → (s' ≡ after c s)
      × (scan_step (to_upper c) s ≡ some s')
      × (is_callsign_char (to_upper c) ≡ true)
unfolding scan_step
scan_step-after c s s' h = ground arith

scan-after :
    (t : Text) (s r : Scan)
    → scan t s ≡ some r
    → (r.normalized ≡ s.normalized ++ map to_upper t)
      × (scan (map to_upper t) s ≡ some r)
      × (all_of is_callsign_char (map to_upper t) ≡ true)
unfolding scan
scan-after [] s r h = ground (arith, append-nil s.normalized)
scan-after (c ∷ t) s r h = elim (Option-cases (scan_step c s)) [
  | inl e ↦ ground arith
  | inr (s', e) ↦
      let step = scan_step-after c s s' e in
      let rest = scan-after t s' r (ground arith) in
      ground (arith, append_assoc s.normalized (to_upper c ∷ []) (map to_upper t))
]

all_of-append :
    (p : ℕ → Bool) (xs ys : Text)
    → all_of p xs ≡ true
    → all_of p ys ≡ true
    → all_of p (xs ++ ys) ≡ true
all_of-append p [] ys h k = k
all_of-append p (x ∷ xs) ys h k = ground (arith, all_of-append p xs ys)

all_of-reverse : (p : ℕ → Bool) (xs : Text) → all_of p xs ≡ true → all_of p (reverse xs) ≡ true
all_of-reverse p [] h = refl
all_of-reverse p (x ∷ xs) h =
    rw (reverse-cons x xs)
      (all_of-append p (reverse xs) (x ∷ []) (all_of-reverse p xs (ground arith)) (ground arith))

drop_blank_clean : (t : Text) → all_of is_callsign_char t ≡ true → drop_blank t ≡ t
unfolding drop_blank
drop_blank_clean [] h = refl
drop_blank_clean (c ∷ t) h = ground arith

trim_clean : (t : Text) → all_of is_callsign_char t ≡ true → trim t ≡ t
unfolding trim
trim_clean t h =
    rw (drop_blank_clean t h, drop_blank_clean (reverse t) (all_of-reverse _ t h))
      (reverse-reverse t)

-- Normalised text: what `normalize` returns.
pub record IsNormal (n : Text) : Type 0 where
  pub characters : all_of is_callsign_char n ≡ true
  pub long_enough : 3 ≤ length n
  pub short_enough : length n ≤ 16
  pub fixed : normalize n ≡ some n

accept-normalized : (s : Scan) (n : Text) → accept s ≡ some n → s.normalized ≡ n
unfolding accept
accept-normalized s n h = ground arith

normalize_clean :
    (n : Text)
    → all_of is_callsign_char n ≡ true
    → normalize n ≡ (if is_empty n then none else normalize_trimmed n)
unfolding normalize
normalize_clean n h = rw (drop_blank_clean n h, trim_clean n h)

normalize_trimmed-again :
    (t n : Text) (s : Scan)
    → scan t scan_start ≡ some s
    → scan n scan_start ≡ some s
    → length n ≡ length t
    → normalize_trimmed n ≡ normalize_trimmed t
unfolding normalize_trimmed
normalize_trimmed-again t n s e f l = rw (l, e, f)

normalize_trimmed-length :
    (t n : Text) → normalize_trimmed t ≡ some n → (3 ≤ length t) × (length t ≤ 16)
unfolding normalize_trimmed
normalize_trimmed-length t n h = ground arith

normalize_trimmed-scan :
    (t n : Text)
    → normalize_trimmed t ≡ some n
    → (s : Scan) × (scan t scan_start ≡ some s) × (s.normalized ≡ n)
unfolding normalize_trimmed
normalize_trimmed-scan t n h = elim (Option-cases (scan t scan_start)) [
  | inl e ↦ ground arith
  | inr (s, e) ↦ (s, e, accept-normalized s n (ground arith))
]

IsNormal-of_map :
    (t n : Text)
    → normalize_trimmed t ≡ some n
    → n ≡ map to_upper t
    → all_of is_callsign_char n ≡ true
    → normalize_trimmed n ≡ normalize_trimmed t
    → IsNormal n
IsNormal-of_map t n h e clean again =
    let bounds = normalize_trimmed-length t n h in
    let same : length n ≡ length t = rw e (length-map to_upper t) in
    record {
      characters = clean;
      long_enough = omega arith;
      short_enough = omega arith;
      fixed = ground (arith, normalize_clean n clean);
    }

normalize_trimmed-IsNormal : (t n : Text) → normalize_trimmed t ≡ some n → IsNormal n
normalize_trimmed-IsNormal t n h =
    let (s, e, same) = normalize_trimmed-scan t n h in
    let (text, again, clean) = scan-after t scan_start s e in
    let upper : n ≡ map to_upper t = sym same ∙ text in
    IsNormal-of_map t n h upper (rw upper clean)
      (normalize_trimmed-again t n s e (rw upper again) (rw upper (length-map to_upper t)))

-- Whatever text is given, a callsign that `normalize` returns has 3 to 16 characters, all capitals,
-- digits or slashes, and `normalize` returns it unchanged.
pub normalize-IsNormal : (t n : Text) → normalize t ≡ some n → IsNormal n
unfolding normalize
normalize-IsNormal t n h = elim (Bool-cases (is_empty (drop_blank t))) [
  | inl e ↦ ground arith
  | inr e ↦ normalize_trimmed-IsNormal (trim t) n (ground arith)
]
