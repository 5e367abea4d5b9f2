-- ===== src/Lease/Map.antt =====
-- The hash map of src/core/src/remote_control.cpp: a list of entries with distinct text keys.
use cw_buddy.Base.{◌≡◌, refl, true, List, [], ◌∷◌, Option, none, some, if◌then◌else◌, arith}
use cw_buddy.Text.{Text, text_eq, text_eq_iff}

pub record Entry {ℓ} (V : Type ℓ) : Type ℓ where
  pub key : Text
  pub value : V

abbrev pub Entries {ℓ} : Type ℓ → Type ℓ
Entries V = List (Entry V)

module _ {ℓ} {V : Type ℓ} where
  unfoldable pub lookup : Text → Entries V → Option V
  lookup k [] = none
  lookup k (e ∷ rest) = if text_eq e.key k then some e.value else lookup k rest

  -- `insert_or_assign`.
  unfoldable pub assign : Text → V → Entries V → Entries V
  assign k v [] = record { key = k; value = v } ∷ []
  assign k v (e ∷ rest) =
      if text_eq e.key k then record { key = k; value = v } ∷ rest else e ∷ assign k v rest

  unfoldable pub erase : Text → Entries V → Entries V
  erase k [] = []
  erase k (e ∷ rest) = if text_eq e.key k then rest else e ∷ erase k rest

  abbrev pub IsUnique : Entries V → Type ℓ
  IsUnique [] = Unit
  IsUnique (e ∷ rest) = (lookup e.key rest ≡ none) × IsUnique rest

  pub lookup-assign :
      (k j : Text) (v : V) (m : Entries V)
      → lookup j (assign k v m) ≡ (if text_eq k j then some v else lookup j m)
  unfolding lookup assign
  lookup-assign k j v [] = refl
  lookup-assign k j v (e ∷ m) =
      ground
        (arith, lookup-assign k j v m, text_eq_iff k j, text_eq_iff e.key k, text_eq_iff e.key j)

  lookup_same : (k j : Text) (m : Entries V) → text_eq k j ≡ true → lookup k m ≡ lookup j m
  lookup_same k j m e = ground (arith, text_eq_iff k j)

  pub lookup-erase :
      (k j : Text) (m : Entries V)
      → IsUnique m
      → lookup j (erase k m) ≡ (if text_eq k j then none else lookup j m)
  unfolding lookup erase
  lookup-erase k j [] u = ground arith
  lookup-erase k j (e ∷ m) u = ground (
    arith,
    lookup-erase k j m u.1,
    text_eq_iff k j,
    text_eq_iff e.key k,
    text_eq_iff e.key j,
    u.0,
  )

  pub assign-IsUnique : (k : Text) (v : V) (m : Entries V) → IsUnique m → IsUnique (assign k v m)
  unfolding assign
  assign-IsUnique k v [] u = (unfold lookup in refl, tt)
  assign-IsUnique k v (e ∷ m) u = ground (
    arith,
    assign-IsUnique k v m u.1,
    lookup-assign k e.key v m,
    text_eq_iff e.key k,
    text_eq_iff k e.key,
    u.0,
  )

  pub erase-IsUnique : (k : Text) (m : Entries V) → IsUnique m → IsUnique (erase k m)
  unfolding erase
  erase-IsUnique k [] u = tt
  erase-IsUnique k (e ∷ m) u =
      ground (arith, erase-IsUnique k m u.1, lookup-erase k e.key m u.1, u.0)
