-- ===== src/Lease.antt =====
-- src/core/src/remote_control.cpp and its header: who may control which rig. The hash map is a list
-- of entries with distinct keys; time is a number of nanoseconds that does not overflow; a
-- requested time to live is a signed number of milliseconds.
pub mod Map
pub mod Holder
pub mod Calls
pub mod Lapse
use cw_buddy.Base.{
  negsuc, pos, ℤ, ◌≡◌, Bool, true, false, ◌&&◌, ◌||◌, not, List, [], ◌∷◌, ◌++◌, ℕ, zero, suc, ◌+◌,
  ◌-◌, ◌*◌, ◌/◌, Option, none, some, ltb, leb, ◌==◌, if◌then◌else◌, length, is_empty, all_of,
}
use cw_buddy.Text.{Text, text_eq, is_alnum}
use Map.{Entries, Entry, lookup, assign, erase}

pub record Lease : Type 0 where
  pub client_id : Text
  pub expires_at : ℕ

abbrev pub Leases : Type 0
Leases = Entries Lease

abbrev pub minimum_ttl_ms : ℕ
minimum_ttl_ms = 2000

abbrev pub maximum_ttl_ms : ℕ
maximum_ttl_ms = 30000

abbrev pub is_identifier_char : ℕ → Bool
is_identifier_char c = is_alnum c || (c == b'-' || (c == b'_' || (c == b'.' || c == b':')))

unfoldable pub valid_identifier : Text → Bool
valid_identifier identifier =
    if is_empty identifier || ltb 128 (length identifier)
    then false
    else all_of is_identifier_char identifier

unfoldable pub clamp_ttl : ℤ → ℕ
clamp_ttl (negsuc n) = minimum_ttl_ms
clamp_ttl (pos n) =
    if ltb n minimum_ttl_ms
    then minimum_ttl_ms
    else if ltb maximum_ttl_ms n
    then maximum_ttl_ms
    else n

-- `now + clamp_ttl(requested_ttl)`.
unfoldable pub expiry : ℕ → ℤ → ℕ
expiry now requested_ttl = now + clamp_ttl requested_ttl * 1000000

-- The loop of `expire`.
unfoldable pub expire : ℕ → Leases → Leases
expire now [] = []
expire now (e ∷ rest) = if leb e.value.expires_at now then expire now rest else e ∷ expire now rest

-- What `expire` returns.
unfoldable pub count_expired : ℕ → Leases → ℕ
count_expired now [] = 0
count_expired now (e ∷ rest) =
    if leb e.value.expires_at now then suc (count_expired now rest) else count_expired now rest

abbrev pub held_by_other : Text → Option Lease → Bool
held_by_other client none = false
held_by_other client (some l) = not (text_eq l.client_id client)

abbrev pub held_by : Text → Option Lease → Bool
held_by client none = false
held_by client (some l) = text_eq l.client_id client

unfoldable pub acquire : Text → Text → ℕ → ℤ → Leases → Leases × Bool
acquire client rig now requested_ttl leases =
    if not (valid_identifier client) || not (valid_identifier rig)
    then (leases, false)
    else if held_by_other client (lookup rig (expire now leases))
    then (expire now leases, false)
    else (
      assign rig (record { client_id = client; expires_at = expiry now requested_ttl })
          (expire now leases),
      true,
    )

unfoldable pub renew : Text → Text → ℕ → ℤ → Leases → Leases × Bool
renew client rig now requested_ttl leases = elim (lookup rig (expire now leases)) [
  | none ↦ (expire now leases, false)
  | some l ↦ if not (text_eq l.client_id client) then (expire now leases, false) else (
    assign rig (record l { expires_at = expiry now requested_ttl }) (expire now leases),
    true,
  )
]

unfoldable pub release : Text → Text → Leases → Leases × Bool
release client rig leases =
    if held_by client (lookup rig leases) then (erase rig leases, true) else (leases, false)

unfoldable pub owns : Text → Text → ℕ → Leases → Leases × Bool
owns client rig now leases = (expire now leases, held_by client (lookup rig (expire now leases)))

pub record Snapshot : Type 0 where
  pub client_id : Text
  pub rig_id : Text
  pub remaining_ms : ℕ

unfoldable pub current : Text → ℕ → Leases → Leases × Option Snapshot
current rig now leases = (
  expire now leases,
  elim (lookup rig (expire now leases)) [
    | none ↦ none
    | some l ↦ some (record {
      client_id = l.client_id;
      rig_id = rig;
      remaining_ms = (l.expires_at - now) / 1000000;
    })
  ],
)

-- A call of one method.
pub data Call : Type 0 where
  acquires renews : Text → Text → ℕ → ℤ → Call
  releases : Text → Text → Call
  looks : ℕ → Call

unfoldable pub step : Call → Leases → Leases
step (acquires client rig now ttl) leases = (acquire client rig now ttl leases).0
step (renews client rig now ttl) leases = (renew client rig now ttl leases).0
step (releases client rig) leases = (release client rig leases).0
step (looks now) leases = expire now leases

unfoldable pub run : List Call → Leases → Leases
run [] leases = leases
run (c ∷ cs) leases = run cs (step c leases)
