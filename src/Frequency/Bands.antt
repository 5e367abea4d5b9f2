-- ===== src/Frequency/Bands.antt =====
-- The bands of `kAdifBands` and the search in them.
use cw_buddy.Base.{
  get_elem?, sym, ◌∙◌, zero, suc, some, ◌↔◌, false, ◌≡◌, refl, ℕ, ◌≤◌, ◌<◌, List, [], ◌∷◌, Bool,
  true, false, ◌&&◌, ltb, leb, arith, is_empty, Bool-cases, inl, inr,
}
use cw_buddy.Text.{Text}
use cw_buddy.Frequency.{BandRange, adif_bands, find_band, adif_band_from_frequency}

-- The bands in rising order with space between them, all above `least`.
rise_above : ℕ → List BandRange → Bool
rise_above least [] = true
rise_above least (b ∷ bands) =
    ltb least b.lower_hz && (leb b.lower_hz b.upper_hz && rise_above b.upper_hz bands)

-- No band of such a list contains `least`, or any number below it.
rise_above-All :
    (bands : List BandRange) (least frequency_hz : ℕ)
    → rise_above least bands ≡ true
    → frequency_hz ≤ least
    → find_band bands frequency_hz ≡ []
unfolding rise_above find_band
rise_above-All [] least f h l = refl
rise_above-All (b ∷ bands) least f h l = ground (arith, h, l, rise_above-All bands b.upper_hz f)

-- A band of the list is found for each of its frequencies: no band before it reaches as far.
find_band_complete :
    (bands : List BandRange) (least i frequency_hz : ℕ) (b : BandRange)
    → rise_above least bands ≡ true
    → get_elem? bands i ≡ some b
    → b.lower_hz ≤ frequency_hz
    → frequency_hz ≤ b.upper_hz
    → (find_band bands frequency_hz ≡ b.name) × (least < frequency_hz)
unfolding rise_above find_band
find_band_complete [] least i f b h e l u = absurd (cc e)
find_band_complete (x ∷ bands) least zero f b h e l u = ground (arith, h, l, u, e)
find_band_complete (x ∷ bands) least (suc i) f b h e l u =
    ground (arith, h, find_band_complete bands x.upper_hz i f b, e, l, u)

find_band_skip :
    (b : BandRange) (bands : List BandRange) (frequency_hz : ℕ)
    → (leb b.lower_hz frequency_hz && leb frequency_hz b.upper_hz) ≡ false
    → find_band (b ∷ bands) frequency_hz ≡ find_band bands frequency_hz
unfolding find_band
find_band_skip b bands f e = rw e refl

-- What is found is the name of a band of the list with the frequency.
find_band_sound :
    (bands : List BandRange) (frequency_hz : ℕ)
    → is_empty (find_band bands frequency_hz) ≡ false
    → (i : ℕ) × (b : BandRange) × (get_elem? bands i ≡ some b)
      × (b.lower_hz ≤ frequency_hz)
      × (frequency_hz ≤ b.upper_hz)
      × (find_band bands frequency_hz ≡ b.name)
unfolding find_band
find_band_sound [] f h = absurd (cc h)
find_band_sound (x ∷ bands) f h = elim (Bool-cases (leb x.lower_hz f && leb f x.upper_hz)) [
  | inl e ↦ (zero, x, refl, ground (arith, e), ground (arith, e), rw e refl)
  | inr e ↦
      let (i, b, at, l, u, is) = find_band_sound bands f (rw (find_band_skip x bands f e) at h) in
      (suc i, b, at, l, u, rw e is)
]

-- A frequency has a band name that is not empty exactly if it lies between the bounds of a band of
-- the table with that name, so no frequency lies in two bands of different names.
pub adif_band_from_frequency_lem :
    (frequency_hz : ℕ) (name : Text)
    → is_empty name ≡ false
    → (adif_band_from_frequency frequency_hz ≡ name) ↔ (
        (i : ℕ) × (b : BandRange) × (get_elem? adif_bands i ≡ some b)
        × (b.lower_hz ≤ frequency_hz)
        × (frequency_hz ≤ b.upper_hz)
        × (b.name ≡ name))
unfolding adif_band_from_frequency rise_above
adif_band_from_frequency_lem f name h = (
  λ found.
      let (i, b, at, l, u, is) = find_band_sound adif_bands f (cc (h, found)) in
      (i, b, at, l, u, sym is ∙ found),
  λ (i, b, at, l, u, is). (find_band_complete adif_bands 0 i f b refl at l u).0 ∙ is,
)
