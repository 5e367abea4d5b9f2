-- ===== src/Callsign/Ignored.antt =====
-- The ignore list of src/core/src/callsign_policy.cpp as a set of callsigns.
use cw_buddy.Base.{
  ◌≡◌, refl, Bool, false, ◌&&◌, ◌||◌, not, List, [], ◌∷◌, none, some, arith, inl, inr, Option-cases,
}
use cw_buddy.Text.{Text, text_eq, text_eq_iff}
use cw_buddy.Callsign.{
  normalize, CallsignPolicy, member, erase, add_ignored, remove_ignored, is_ignored,
}

-- Two spellings of one callsign.
abbrev pub same_call : Text → Text → Bool
same_call x c = elim (normalize x) [
  | none ↦ false
  | some n ↦ elim (normalize c) [ none ↦ false | some m ↦ text_eq n m ]
]

member-erase :
    (s t : Text) (xs : List Text) → member s (erase t xs) ≡ (member s xs && not (text_eq s t))
unfolding member erase
member-erase s t [] = refl
member-erase s t (x ∷ xs) =
    ground (arith, member-erase s t xs, text_eq_iff s t, text_eq_iff t x, text_eq_iff s x)

member-cons : (s x : Text) (xs : List Text) → member s (x ∷ xs) ≡ (text_eq s x || member s xs)
unfolding member
member-cons s x xs = refl

-- Adding a callsign makes exactly its spellings ignored, beside those that were before.
is_ignored-add_ignored :
    (p : CallsignPolicy) (c x : Text)
    → is_ignored (add_ignored c p).0 x ≡ (is_ignored p x || same_call x c)
unfolding is_ignored add_ignored
is_ignored-add_ignored p c x = elim (Option-cases (normalize c)) [
  | inl e ↦ ground arith
  | inr (m, e) ↦ elim (Option-cases (normalize x)) [
    | inl f ↦ ground arith
    | inr (n, f) ↦ ground (arith, member-cons n m p.ignored, text_eq_iff n m)
  ]
]

-- Removing a callsign makes exactly its spellings no longer ignored.
is_ignored-remove_ignored :
    (p : CallsignPolicy) (c x : Text)
    → is_ignored (remove_ignored c p).0 x ≡ (is_ignored p x && not (same_call x c))
unfolding is_ignored remove_ignored
is_ignored-remove_ignored p c x = elim (Option-cases (normalize c)) [
  | inl e ↦ ground arith
  | inr (m, e) ↦ elim (Option-cases (normalize x)) [
    | inl f ↦ ground arith
    | inr (n, f) ↦ ground (arith, member-erase n m p.ignored, text_eq_iff n m)
  ]
]

-- Adding a callsign makes exactly its spellings ignored beside those that were before, and removing
-- it makes exactly them no longer ignored.
pub is_ignored_lem :
    (p : CallsignPolicy) (c x : Text)
    → (is_ignored (add_ignored c p).0 x ≡ (is_ignored p x || same_call x c))
      × (is_ignored (remove_ignored c p).0 x ≡ (is_ignored p x && not (same_call x c)))
is_ignored_lem p c x = (is_ignored-add_ignored p c x, is_ignored-remove_ignored p c x)
