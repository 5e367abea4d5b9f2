-- ===== src/Examples/Naming.antt =====
-- Callsigns of src/core/src/callsign_policy.cpp.
use cw_buddy.Base.{◌≡◌, refl, some}
use cw_buddy.Text.{codes}
use cw_buddy.Callsign.{drop_blank, trim, scan_step, scan, normalize_trimmed, accept, normalize}
use cw_buddy.Callsign.Normal.{IsNormal, normalize-IsNormal}

pub normalize_call : normalize (codes " k1abc/p ") ≡ some (codes "K1ABC/P")
unfolding normalize drop_blank trim scan_step scan normalize_trimmed accept
normalize_call = refl

normalize-IsNormal_example : IsNormal (codes "K1ABC/P")
normalize-IsNormal_example = normalize-IsNormal (codes " k1abc/p ") (codes "K1ABC/P") normalize_call
