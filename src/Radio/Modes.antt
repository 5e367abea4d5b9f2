-- ===== src/Radio/Modes.antt =====
-- The mode tokens of src/core/src/radio_control.cpp.
use cw_buddy.Base.{◌≡◌, refl, Bool, true, false, ◌&&◌, ◌||◌, map, if◌then◌else◌}
use cw_buddy.Text.{Text, codes, text_eq, to_upper}
use cw_buddy.Radio.{
  RadioMode, unknown_mode, cw, cw_reverse, lower_sideband, upper_sideband, am, fm, digital_lower,
  digital_upper, rtty, rtty_reverse, RadioModeState, is_known,
}

unfoldable pub normalized_mode : Text → RadioMode
normalized_mode n =
    if text_eq n (codes "CW") || (text_eq n (codes "CWU") || text_eq n (codes "CW-U"))
    then cw
    else if text_eq n (codes "CWR")
        || (text_eq n (codes "CWL") || (text_eq n (codes "CW-R") || text_eq n (codes "CW-L")))
    then cw_reverse
    else if text_eq n (codes "LSB")
    then lower_sideband
    else if text_eq n (codes "USB")
    then upper_sideband
    else if text_eq n (codes "AM")
    then am
    else if text_eq n (codes "FM")
    then fm
    else if text_eq n (codes "DIGL") || (text_eq n (codes "DIG-L") || text_eq n (codes "PKTLSB"))
    then digital_lower
    else if text_eq n (codes "DIGU") || (text_eq n (codes "DIG-U") || text_eq n (codes "PKTUSB"))
    then digital_upper
    else if text_eq n (codes "RTTY")
    then rtty
    else if text_eq n (codes "RTTYR") || text_eq n (codes "RTTY-R")
    then rtty_reverse
    else unknown_mode

unfoldable pub radio_mode_from_token : Text → RadioMode
radio_mode_from_token token = normalized_mode (map to_upper token)

unfoldable pub radio_mode_token : RadioMode → Text
radio_mode_token cw = codes "CW"
radio_mode_token cw_reverse = codes "CW-R"
radio_mode_token lower_sideband = codes "LSB"
radio_mode_token upper_sideband = codes "USB"
radio_mode_token am = codes "AM"
radio_mode_token fm = codes "FM"
radio_mode_token digital_lower = codes "DIG-L"
radio_mode_token digital_upper = codes "DIG-U"
radio_mode_token rtty = codes "RTTY"
radio_mode_token rtty_reverse = codes "RTTY-R"
radio_mode_token unknown_mode = codes "?"

abbrev pub mode_eq : RadioMode → RadioMode → Bool
mode_eq unknown_mode unknown_mode = true
mode_eq cw cw = true
mode_eq cw_reverse cw_reverse = true
mode_eq lower_sideband lower_sideband = true
mode_eq upper_sideband upper_sideband = true
mode_eq am am = true
mode_eq fm fm = true
mode_eq digital_lower digital_lower = true
mode_eq digital_upper digital_upper = true
mode_eq rtty rtty = true
mode_eq rtty_reverse rtty_reverse = true
mode_eq m n = false

unfoldable pub radio_tx_mode_target_is_valid : RadioMode → Bool
radio_tx_mode_target_is_valid mode = mode_eq mode cw || mode_eq mode cw_reverse

unfoldable pub radio_mode_target_is_confirmed : RadioModeState → RadioMode → Bool
radio_mode_target_is_confirmed observation target =
    radio_tx_mode_target_is_valid target
    && (is_known observation.observation && mode_eq observation.mode target)

-- The token of a mode reads back as the mode, "?" as the unknown one.
pub from_token-token : (m : RadioMode) → radio_mode_from_token (radio_mode_token m) ≡ m
unfolding radio_mode_from_token radio_mode_token normalized_mode text_eq
from_token-token unknown_mode = refl
from_token-token cw = refl
from_token-token cw_reverse = refl
from_token-token lower_sideband = refl
from_token-token upper_sideband = refl
from_token-token am = refl
from_token-token fm = refl
from_token-token digital_lower = refl
from_token-token digital_upper = refl
from_token-token rtty = refl
from_token-token rtty_reverse = refl
