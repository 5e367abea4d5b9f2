-- ===== src/Lease/Calls.antt =====
-- The calls of src/core/src/remote_control.cpp against the holder of each rig, and what holds after
-- any sequence of them.
use cw_buddy.Base.{
  ℤ, ◌≡◌, refl, ap, true, false, ◌&&◌, not, List, [], ◌∷◌, ℕ, ◌≤◌, ◌↔◌, Option, none, some,
  if◌then◌else◌, All, Bool, ◌∙◌, arith, inl, inr, Bool-cases, subst,
}
use cw_buddy.Text.{Text, text_eq, text_eq_iff}
use cw_buddy.Lease.Map.{lookup, assign, IsUnique, lookup-erase, assign-IsUnique, erase-IsUnique}
use cw_buddy.Lease.{
  Lease, Leases, expiry, expire, held_by, acquire, renew, release, owns, Call, acquires, renews,
  releases, looks, step, run,
}
use cw_buddy.Lease.Holder.{
  live_at, client_of, holder, is_client, is_free_for, acquire_lem, granted_holder, expire-IsUnique,
  holder-expire, holder-assign, held_by-holder, held_by-client_of,
}

unfoldable pub granted : Text → Text → ℕ → ℤ → Leases → Leases
granted client rig now ttl m =
    assign rig (record { client_id = client; expires_at = expiry now ttl }) (expire now m)

pub renewed_to :
    (client rig : Text) (now : ℕ) (ttl : ℤ) (m : Leases) (o : Option Lease)
    → lookup rig (expire now m) ≡ o
    → renew client rig now ttl m
      ≡ (if held_by client o then (granted client rig now ttl m, true) else (expire now m, false))
unfolding renew granted
renewed_to client rig now ttl m none e = rw (renew, e) refl
renewed_to client rig now ttl m (some l) e =
    rw (renew, e)
      (elim (Bool-cases (text_eq l.client_id client)) [
        | inr g ↦ rw g refl
        | inl g ↦ rw g (
            ap
              (λ c. (
                assign rig (record { client_id = c; expires_at = expiry now ttl }) (expire now m),
                true,
              ))
              ((text_eq_iff l.client_id client).0 g))
      ])

-- `renew` extends a lease exactly for the client that holds the rig at the time; then the client
-- holds it until the new lease runs out. If it is refused, and for all other rigs, the holders stay
-- as they were. The registry has one lease for each rig.
pub renew_lem :
    (client rig q : Text) (now t : ℕ) (ttl : ℤ) (m : Leases)
    → IsUnique m
    → now ≤ t
    → let (m', granted) = renew client rig now ttl m in
      (granted ≡ is_client client (holder rig now m))
      × (holder q t m'
          ≡ (if granted then granted_holder client (expiry now ttl) rig q t m else holder q t m))
unfolding granted
renew_lem client rig q now t ttl m u h =
    rw
      (
        renewed_to client rig now ttl m (lookup rig (expire now m)) refl,
        held_by-holder client rig now m u,
      )
      (elim (Bool-cases (is_client client (holder rig now m))) [
        | inr g ↦ rw g (refl, holder-expire now t q m u h)
        | inl g ↦ rw g (
          refl,
          holder-assign rig q (record { client_id = client; expires_at = expiry now ttl }) now t m u
              h,
        )
      ])

not_client :
    (client : Text) (t : ℕ) (o : Option Lease)
    → held_by client o ≡ false
    → is_client client (client_of (live_at t o)) ≡ false
not_client client t none h = refl
not_client client t (some l) h = ground arith

-- `release` frees a rig that the client holds, and then says so; it changes no other rig and
-- nothing for a client that does not hold the rig. The registry has one lease for each rig.
pub release_lem :
    (client rig q : Text) (t : ℕ) (m : Leases)
    → IsUnique m
    → (holder q t (release client rig m).0
        ≡ (if text_eq rig q && is_client client (holder q t m) then none else holder q t m))
      × ((is_client client (holder rig t m) && not (release client rig m).1) ≡ false)
unfolding release
release_lem client rig q t m u = elim (Bool-cases (held_by client (lookup rig m))) [
  | inl g ↦
      rw (g, lookup-erase rig q m u)
        (ground (arith, held_by-client_of client (lookup rig m), text_eq_iff rig q))
  | inr g ↦ rw g (elim (Bool-cases (text_eq rig q)) [
    | inr k ↦ rw k (rw (not_client client t (lookup rig m) g) (refl, refl))
    | inl k ↦
        rw
          (
            k,
            not_client client t (lookup q m)
                (subst (λ r. held_by client (lookup r m) ≡ false) ((text_eq_iff rig q).0 k) g),
          )
          (rw (not_client client t (lookup rig m) g) (refl, refl))
  ])
]

acquire-IsUnique :
    (client rig : Text) (now : ℕ) (ttl : ℤ) (m : Leases)
    → IsUnique m
    → IsUnique (acquire client rig now ttl m).0
unfolding acquire
acquire-IsUnique client rig now ttl m u = ground (
  arith,
  expire-IsUnique now m u,
  assign-IsUnique rig (record { client_id = client; expires_at = expiry now ttl }) (expire now m)
      (expire-IsUnique now m u),
)

renew-IsUnique :
    (client rig : Text) (now : ℕ) (ttl : ℤ) (m : Leases)
    → IsUnique m
    → IsUnique (renew client rig now ttl m).0
unfolding granted
renew-IsUnique client rig now ttl m u =
    rw (renewed_to client rig now ttl m (lookup rig (expire now m)) refl) (
      ground (
        arith,
        expire-IsUnique now m u,
        assign-IsUnique rig (record { client_id = client; expires_at = expiry now ttl })
            (expire now m) (expire-IsUnique now m u),
      ))

step-IsUnique : (c : Call) (m : Leases) → IsUnique m → IsUnique (step c m)
unfolding step release
step-IsUnique (acquires client rig now ttl) m u = acquire-IsUnique client rig now ttl m u
step-IsUnique (renews client rig now ttl) m u = renew-IsUnique client rig now ttl m u
step-IsUnique (releases client rig) m u = ground (arith, erase-IsUnique rig m u, u)
step-IsUnique (looks now) m u = expire-IsUnique now m u

pub run-IsUnique : (cs : List Call) (m : Leases) → IsUnique m → IsUnique (run cs m)
unfolding run
run-IsUnique [] m u = u
run-IsUnique (c ∷ cs) m u = run-IsUnique cs (step c m) (step-IsUnique c m u)

is_client_iff : (client : Text) (o : Option Text) → (is_client client o ≡ true) ↔ (o ≡ some client)
is_client_iff client none = ground arith
is_client_iff client (some d) =
    (λ e. ap some ((text_eq_iff d client).0 e), λ e. (text_eq_iff d client).1 (cc e))

owner-owns :
    (client rig : Text) (now : ℕ) (m : Leases)
    → IsUnique m
    → ((owns client rig now m).1 ≡ true) ↔ (holder rig now m ≡ some client)
unfolding owns
owner-owns client rig now m u =
    rw (held_by-holder client rig now m u) (is_client_iff client (holder rig now m))

owns_by :
    (other client rig : Text) (now : ℕ) (m : Leases)
    → IsUnique m
    → holder rig now m ≡ some client
    → (owns other rig now m).1 ≡ text_eq client other
unfolding owns
owns_by other client rig now m u k = rw (held_by-holder other rig now m u, k) refl

-- A call before the time `t` that is not the client's, or at that time.
abbrev pub IsForeign : Text → ℕ → Call → Type 0
IsForeign client t (acquires other rig now ttl) = (now ≤ t) × (text_eq client other ≡ false)
IsForeign client t (renews other rig now ttl) = (now ≤ t) × (text_eq client other ≡ false)
IsForeign client t (releases other rig) = text_eq client other ≡ false
IsForeign client t (looks now) = now ≤ t

-- A lease that runs at a time runs before it.
live_before :
    (client : Text) (now t : ℕ) (o : Option Lease)
    → now ≤ t
    → client_of (live_at t o) ≡ some client
    → client_of (live_at now o) ≡ some client
live_before client now t none h k = k
live_before client now t (some l) h k = ground (arith, h, k)

-- The rig that a client holds is not free for another one.
not_free :
    (client other rig q : Text) (now t : ℕ) (m : Leases)
    → now ≤ t
    → text_eq client other ≡ false
    → holder rig t m ≡ some client
    → text_eq q rig ≡ true
    → (is_free_for other (holder q now m) ≡ false) × (is_client other (holder q now m) ≡ false)
not_free client other rig q now t m h d k e =
    let before = live_before client now t (lookup rig m) h k in
    rw ((text_eq_iff q rig).0 e, before) (d, d)

-- A grant to another client is no grant of the rig that a client holds.
granted_keeps :
    (client q rig : Text) (t until : ℕ) (other : Text) (m : Leases) (granted : Bool)
    → holder rig t m ≡ some client
    → (text_eq q rig ≡ true → granted ≡ false)
    → (if granted then granted_holder other until q rig t m else holder rig t m) ≡ some client
granted_keeps client q rig t until other m granted k shut = ground (arith, k, shut)

released_keeps : (test : Bool) (o : Option Text) → (if test && false then none else o) ≡ o
released_keeps true o = refl
released_keeps false o = refl

foreign_keeps :
    (c : Call) (client rig : Text) (t : ℕ) (m : Leases)
    → IsUnique m
    → IsForeign client t c
    → holder rig t m ≡ some client
    → holder rig t (step c m) ≡ some client
unfolding step
foreign_keeps (acquires other q now ttl) client rig t m u (h, d) k =
    let (granted, led) = acquire_lem other q rig now t ttl m u h in
    let shut = not_free client other rig q now t m h d k in
    led
    ∙ granted_keeps client q rig t (expiry now ttl) other m (acquire other q now ttl m).1 k
        (λ e. ground (arith, granted, shut e))
foreign_keeps (renews other q now ttl) client rig t m u (h, d) k =
    let (granted, led) = renew_lem other q rig now t ttl m u h in
    let shut = not_free client other rig q now t m h d k in
    led
    ∙ granted_keeps client q rig t (expiry now ttl) other m (renew other q now ttl m).1 k
        (λ e. granted ∙ (shut e).1)
foreign_keeps (releases other q) client rig t m u d k =
    let (led, told) = release_lem other q rig t m u in
    led ∙ rw (k, d) (released_keeps (text_eq q rig) (some client))
foreign_keeps (looks now) client rig t m u h k = holder-expire now t rig m u h ∙ k

All-foreign_keep :
    (cs : List Call) (client rig : Text) (t : ℕ) (m : Leases)
    → IsUnique m
    → All (IsForeign client t) cs
    → holder rig t m ≡ some client
    → holder rig t (run cs m) ≡ some client
unfolding run
All-foreign_keep [] client rig t m u a k = k
All-foreign_keep (c ∷ cs) client rig t m u (now, later) k =
    All-foreign_keep cs client rig t (step c m) (step-IsUnique c m u) later
      (foreign_keeps c client rig t m u now k)

-- A client that owns a rig at some time after any calls on an empty registry is its only owner at
-- that time, whatever other clients call up to then: of all clients exactly this one owns the rig.
pub owns_exclusive :
    (cs foreign : List Call) (client other rig : Text) (t : ℕ)
    → (owns client rig t (run cs [])).1 ≡ true
    → All (IsForeign client t) foreign
    → (owns other rig t (run foreign (run cs []))).1 ≡ text_eq client other
owns_exclusive cs foreign client other rig t h a =
    let u = run-IsUnique cs [] tt in
    let k = (owner-owns client rig t (run cs []) u).0 h in
    let kept = All-foreign_keep foreign client rig t (run cs []) u a k in
    owns_by other client rig t (run foreign (run cs [])) (run-IsUnique foreign (run cs []) u) kept
