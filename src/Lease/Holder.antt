-- ===== src/Lease/Holder.antt =====
-- The leases of src/core/src/remote_control.cpp as a function from rigs and times to clients.
use cw_buddy.Base.{
  negsuc, pos, ℤ, ◌≡◌, refl, ap, ◌∙◌, Bool, true, false, ◌&&◌, not, [], ◌∷◌, ℕ, ◌+◌, ◌≤◌, Option,
  none, some, leb, if◌then◌else◌, arith, inl, inr, Bool-cases, length,
}
use cw_buddy.Text.{Text, text_eq, text_eq_iff}
use cw_buddy.Lease.Map.{lookup, assign, IsUnique, lookup-assign}
use cw_buddy.Lease.{
  Lease, Leases, valid_identifier, clamp_ttl, expiry, expire, count_expired, held_by, held_by_other,
  acquire,
}

abbrev pub live_at : ℕ → Option Lease → Option Lease
live_at t none = none
live_at t (some l) = if leb l.expires_at t then none else some l

abbrev pub client_of : Option Lease → Option Text
client_of none = none
client_of (some l) = some l.client_id

-- The client that holds the rig at time `t`, if nothing is called before.
abbrev pub holder : Text → ℕ → Leases → Option Text
holder rig t leases = client_of (live_at t (lookup rig leases))

abbrev pub is_client : Text → Option Text → Bool
is_client c none = false
is_client c (some d) = text_eq d c

abbrev pub is_free_for : Text → Option Text → Bool
is_free_for c none = true
is_free_for c (some d) = text_eq d c

lookup-expire :
    (now : ℕ) (q : Text) (m : Leases)
    → IsUnique m
    → lookup q (expire now m) ≡ live_at now (lookup q m)
unfolding expire lookup
lookup-expire now q [] u = refl
lookup-expire now q (e ∷ m) u = ground (arith, lookup-expire now q m u.1, text_eq_iff e.key q, u.0)

pub expire-IsUnique : (now : ℕ) (m : Leases) → IsUnique m → IsUnique (expire now m)
unfolding expire
expire-IsUnique now [] u = tt
expire-IsUnique now (e ∷ m) u =
    ground (arith, expire-IsUnique now m u.1, lookup-expire now e.key m u.1, u.0)

-- `expire` returns the number of entries that it drops.
pub length-expire : (now : ℕ) (m : Leases) → length (expire now m) + count_expired now m ≡ length m
unfolding expire count_expired
length-expire now [] = omega arith
length-expire now (e ∷ m) = ground (arith, length-expire now m)

live_at_later : (now t : ℕ) (o : Option Lease) → now ≤ t → live_at t (live_at now o) ≡ live_at t o
live_at_later now t none h = refl
live_at_later now t (some l) h = ground arith

pub holder-expire :
    (now t : ℕ) (q : Text) (m : Leases)
    → IsUnique m
    → now ≤ t
    → holder q t (expire now m) ≡ holder q t m
holder-expire now t q m u h =
    ap client_of (ap (live_at t) (lookup-expire now q m u) ∙ live_at_later now t (lookup q m) h)

-- A lease runs for at least two and at most thirty seconds, whatever time to live is asked for.
pub expiry_bounds :
    (now : ℕ) (ttl : ℤ) → (now + 2000000000 ≤ expiry now ttl) × (expiry now ttl ≤ now + 30000000000)
unfolding expiry clamp_ttl
expiry_bounds now (pos n) = ground arith
expiry_bounds now (negsuc n) = omega arith

-- Who holds a rig once `rig` is given to `client` until `until`.
abbrev pub granted_holder : Text → ℕ → Text → Text → ℕ → Leases → Option Text
granted_holder client until rig q t leases =
    if text_eq rig q then (if leb until t then none else some client) else holder q t leases

pub holder-assign :
    (rig q : Text) (l : Lease) (now t : ℕ) (m : Leases)
    → IsUnique m
    → now ≤ t
    → holder q t (assign rig l (expire now m)) ≡ granted_holder l.client_id l.expires_at rig q t m
holder-assign rig q l now t m u h =
    rw (lookup-assign rig q l (expire now m)) (elim (Bool-cases (text_eq rig q)) [
      | inl e ↦ rw e (ground arith)
      | inr e ↦ rw e (holder-expire now t q m u h)
    ])

held_by_other-client_of :
    (client : Text) (o : Option Lease)
    → held_by_other client o ≡ not (is_free_for client (client_of o))
held_by_other-client_of client none = refl
held_by_other-client_of client (some l) = refl

pub held_by-client_of :
    (client : Text) (o : Option Lease) → held_by client o ≡ is_client client (client_of o)
held_by-client_of client none = refl
held_by-client_of client (some l) = refl

refused_or_free :
    (client rig : Text) (now : ℕ) (m : Leases)
    → IsUnique m
    → held_by_other client (lookup rig (expire now m)) ≡ not (is_free_for client (holder rig now m))
refused_or_free client rig now m u =
    rw (lookup-expire now rig m u) (held_by_other-client_of client (live_at now (lookup rig m)))

pub held_by-holder :
    (client rig : Text) (now : ℕ) (m : Leases)
    → IsUnique m
    → held_by client (lookup rig (expire now m)) ≡ is_client client (holder rig now m)
held_by-holder client rig now m u =
    rw (lookup-expire now rig m u) (held_by-client_of client (live_at now (lookup rig m)))

-- `acquire` grants a rig exactly to a client with a valid name, for a rig with a valid name that no
-- other client holds at the time; then the client holds it until its lease runs out. At all later
-- times every other rig, and this one if the call is refused, has the holder that it had. The
-- registry has one lease for each rig.
pub acquire_lem :
    (client rig q : Text) (now t : ℕ) (ttl : ℤ) (m : Leases)
    → IsUnique m
    → now ≤ t
    → let (m', granted) = acquire client rig now ttl m in
      (granted ≡ (
        valid_identifier client && (valid_identifier rig && is_free_for client (holder rig now m))))
      × (holder q t m'
          ≡ (if granted then granted_holder client (expiry now ttl) rig q t m else holder q t m))
unfolding acquire
acquire_lem client rig q now t ttl m u h = elim (Bool-cases (valid_identifier client)) [
  | inr e ↦ rw e (refl, refl)
  | inl e ↦ rw e (elim (Bool-cases (valid_identifier rig)) [
    | inr f ↦ rw f (refl, refl)
    | inl f ↦ rw f (
        rw (refused_or_free client rig now m u)
          (elim (Bool-cases (is_free_for client (holder rig now m))) [
            | inr g ↦ rw g (refl, holder-expire now t q m u h)
            | inl g ↦ rw g (
              refl,
              holder-assign rig q (record { client_id = client; expires_at = expiry now ttl }) now t
                  m u h,
            )
          ]))
  ])
]
