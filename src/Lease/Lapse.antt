-- ===== src/Lease/Lapse.antt =====
-- When the leases of src/core/src/remote_control.cpp have run out.
use cw_buddy.Base.{
  ℤ, ◌≡◌, refl, sym, subst, List, [], ◌∷◌, ℕ, ◌+◌, ◌≤◌, none, arith, All, inl, inr, Bool-cases,
}
use cw_buddy.Text.{Text, text_eq}
use cw_buddy.Lease.Map.{lookup, assign, erase}
use cw_buddy.Lease.{
  Lease, Leases, expiry, expire, acquire, release, Call, acquires, renews, releases, looks, step,
  run,
}
use cw_buddy.Lease.Holder.{holder, expiry_bounds}
use cw_buddy.Lease.Calls.{granted, renewed_to}

-- The call reads the clock at `t` at the latest.
abbrev pub IsBy : ℕ → Call → Type 0
IsBy t (acquires client rig now ttl) = now ≤ t
IsBy t (renews client rig now ttl) = now ≤ t
IsBy t (releases client rig) = Unit
IsBy t (looks now) = Unit

-- Every lease runs out at `t` at the latest.
abbrev pub IsOver : ℕ → Leases → Type 0
IsOver t [] = Unit
IsOver t (e ∷ m) = (e.value.expires_at ≤ t) × IsOver t m

expire-IsOver : (now t : ℕ) (m : Leases) → IsOver t m → IsOver t (expire now m)
unfolding expire
expire-IsOver now t [] o = tt
expire-IsOver now t (e ∷ m) o = ground (arith, expire-IsOver now t m o.1, o.0)

assign-IsOver :
    (rig : Text) (l : Lease) (t : ℕ) (m : Leases)
    → l.expires_at ≤ t
    → IsOver t m
    → IsOver t (assign rig l m)
unfolding assign
assign-IsOver rig l t [] h o = (h, tt)
assign-IsOver rig l t (e ∷ m) h o = ground (arith, assign-IsOver rig l t m h o.1, o.0, o.1, h)

erase-IsOver : (rig : Text) (t : ℕ) (m : Leases) → IsOver t m → IsOver t (erase rig m)
unfolding erase
erase-IsOver rig t [] o = tt
erase-IsOver rig t (e ∷ m) o = ground (arith, erase-IsOver rig t m o.1, o.0, o.1)

granted-IsOver :
    (client rig : Text) (now : ℕ) (ttl : ℤ) (t : ℕ) (m : Leases)
    → now + 30000000000 ≤ t
    → IsOver t m
    → IsOver t (granted client rig now ttl m)
unfolding granted
granted-IsOver client rig now ttl t m h o =
    assign-IsOver rig (record { client_id = client; expires_at = expiry now ttl }) t (expire now m)
      (ground (arith, expiry_bounds now ttl, h)) (expire-IsOver now t m o)

step-IsOver :
    (c : Call) (t : ℕ) (m : Leases)
    → IsBy t c
    → IsOver (t + 30000000000) m
    → IsOver (t + 30000000000) (step c m)
unfolding step release acquire granted
step-IsOver (acquires client rig now ttl) t m b o = ground (
  arith,
  expire-IsOver now (t + 30000000000) m o,
  granted-IsOver client rig now ttl (t + 30000000000) m (ground arith) o,
)
step-IsOver (renews client rig now ttl) t m b o =
    subst (λ r. IsOver (t + 30000000000) r.0)
      (sym (renewed_to client rig now ttl m (lookup rig (expire now m)) refl))
      (ground (
        arith,
        expire-IsOver now (t + 30000000000) m o,
        granted-IsOver client rig now ttl (t + 30000000000) m (ground arith) o,
      ))
step-IsOver (releases client rig) t m b o =
    ground (arith, erase-IsOver rig (t + 30000000000) m o, o)
step-IsOver (looks now) t m b o = expire-IsOver now (t + 30000000000) m o

run-IsOver :
    (cs : List Call) (t : ℕ) (m : Leases)
    → All (IsBy t) cs
    → IsOver (t + 30000000000) m
    → IsOver (t + 30000000000) (run cs m)
unfolding run
run-IsOver [] t m b o = o
run-IsOver (c ∷ cs) t m b o = run-IsOver cs t (step c m) b.1 (step-IsOver c t m b.0 o)

over-holder : (rig : Text) (t : ℕ) (m : Leases) → IsOver t m → holder rig t m ≡ none
unfolding lookup
over-holder rig t [] o = refl
over-holder rig t (e ∷ m) o = elim (Bool-cases (text_eq e.key rig)) [
  | inl k ↦ rw k (ground (arith, o.0))
  | inr k ↦ rw k (over-holder rig t m o.1)
]

-- Thirty seconds after the last call that asked for a lease, whatever the times to live asked for,
-- no client holds any rig, for any sequence of calls on a registry that starts empty.
pub leases_lapse :
    (cs : List Call) (t : ℕ) (rig : Text)
    → All (IsBy t) cs
    → holder rig (t + 30000000000) (run cs []) ≡ none
leases_lapse cs t rig b = over-holder rig (t + 30000000000) (run cs []) (run-IsOver cs t [] b tt)
