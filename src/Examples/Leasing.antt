-- ===== src/Examples/Leasing.antt =====
-- Leases of src/core/src/remote_control.cpp.
use cw_buddy.Base.{
  negsuc, pos, ◌≡◌, refl, none, true, ◌&&◌, List, [], ◌∷◌, ◌+◌, if◌then◌else◌, arith,
}
use cw_buddy.Text.{Text, codes, text_eq}
use cw_buddy.Lease.Map.{lookup, assign, IsUnique}
use cw_buddy.Lease.{
  Leases, Call, acquires, renews, releases, valid_identifier, clamp_ttl, expiry, expire, acquire,
  owns, step, run,
}
use cw_buddy.Lease.Holder.{holder, is_free_for, granted_holder, acquire_lem}
use cw_buddy.Lease.Calls.{run-IsUnique, owns_exclusive}
use cw_buddy.Lease.Lapse.{leases_lapse}

abbrev ann : Text
ann = codes "ann"

abbrev bob : Text
bob = codes "bob"

abbrev rig : Text
rig = codes "rig-1"

-- One client asks for a minute, another one for the same rig.
abbrev calls : List Call
calls = acquires ann rig 1000 (pos 60000) ∷ acquires bob rig 2000 (negsuc 0) ∷ []

abbrev leases : Leases
leases = run calls []

leases-IsUnique : IsUnique leases
leases-IsUnique = run-IsUnique calls [] tt

acquire_lem_example :
    let (m', granted) = acquire bob rig 3000 (pos 5000) leases in
    (granted ≡ (
      valid_identifier bob && (valid_identifier rig && is_free_for bob (holder rig 3000 leases))))
    × (holder rig 4000 m' ≡ (
        if granted
        then granted_holder bob (expiry 3000 (pos 5000)) rig rig 4000 leases
        else holder rig 4000 leases))
acquire_lem_example =
    acquire_lem bob rig rig 3000 4000 (pos 5000) leases leases-IsUnique (omega arith)

ann-owns : (owns ann rig 4000 leases).1 ≡ true
unfolding run step acquire owns valid_identifier clamp_ttl expiry expire lookup assign text_eq
ann-owns = refl

-- What the other client tries while the lease runs.
abbrev tries : List Call
tries = acquires bob rig 2500 (pos 5000) ∷ releases bob rig ∷ renews bob rig 3000 (pos 0) ∷ []

owns_exclusive_example : (owns bob rig 4000 (run tries (run calls []))).1 ≡ text_eq ann bob
unfolding text_eq
owns_exclusive_example =
    owns_exclusive calls tries ann bob rig 4000 ann-owns
      ((omega arith, refl), (refl, ((omega arith, refl), tt)))

leases_lapse_example : holder rig (2000 + 30000000000) leases ≡ none
leases_lapse_example = leases_lapse calls 2000 rig (omega arith, (omega arith, tt))
