-- ===== src/Encoder/Tests.antt =====
-- Runs of the encoder of src/core/src/cw_transmit_encoder.cpp.
use cw_buddy.Base.{◌≡◌, refl, [], ◌∷◌, some, none, Option, true, false}
use cw_buddy.Text.{codes, Text, text_eq, split_at}
use cw_buddy.Morse.{
  morse_table, prosign_table, find_prosign, prosign_elements, find_character, elements_for,
}
use cw_buddy.Encoder.{
  Plan, span, set_back, append_span, append_elements, append_gap, emit, encode_here, encode_step,
  encode_loop, total_units_from, finish_plan, refuses, encode,
}

pub encode_at : Text → Option Plan
unfolding set_back append_span append_elements append_gap emit encode_here encode_step encode_loop
    total_units_from finish_plan refuses encode split_at text_eq morse_table prosign_table
    find_prosign prosign_elements find_character elements_for
encode_at t = encode t 20

encode_word :
    encode_at (codes "A <KN> E")
    ≡ some (record {
      text = codes "A <KN> E";
      spans =
          span true 1
          ∷ span false 1
          ∷ span true 3
          ∷ span false 7
          ∷ span true 3
          ∷ span false 1
          ∷ span true 1
          ∷ span false 1
          ∷ span true 3
          ∷ span false 1
          ∷ span true 3
          ∷ span false 1
          ∷ span true 1
          ∷ span false 7
          ∷ span true 1
          ∷ [];
      dot_duration_ns = 60000000;
      total_duration_ns = 2100000000;
    })
unfolding encode_at
encode_word = refl

encode_unknown_prosign : encode_at (codes "A <XX> E") ≡ none
unfolding encode_at
encode_unknown_prosign = refl
