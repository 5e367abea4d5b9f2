-- ===== src/Guard/Watchdog.antt =====
-- The continuous-KEY watchdog and the fault latch of src/core/src/transmit_guard.cpp.
use cw_buddy.Base.{
  ◌≡◌, refl, ◌⊎◌, Bool, true, false, ◌&&◌, ◌||◌, List, [], ◌∷◌, ℕ, ◌+◌, ◌-◌, ◌*◌, ◌≤◌, ◌↔◌, All,
  arith, inl, inr, Bool-cases, ltb,
}
use cw_buddy.Guard.{
  TransmitState, disarmed, armed, awaiting_confirmation, confirmed, transmitting, tuning, fault,
  Guard, trip_fault, may_key, deadline, observe_key_state, Call, disarms, resets, step,
  every_method, after,
}
use cw_buddy.Guard.Invariant.{Inv, after-Inv}

-- Observations of the line held down, at the times given; is every one of them in order?
unfoldable pub observe_down : List ℕ → Guard → Guard × Bool
observe_down [] g = (g, true)
observe_down (t ∷ ts) g =
    let (g', fine) = observe_key_state true t g in
    let (g'', rest) = observe_down ts g' in (g'', fine && rest)

-- The line is down since `t`, in a state that may key.
abbrev pub IsDown : ℕ → Guard → Type 0
IsDown t g = (may_key g.state ≡ true) × (g.key_down ≡ true) × (g.key_down_since_ns ≡ t)

-- How many seconds the line may stay down.
abbrev pub seconds_down : TransmitState → ℕ
seconds_down transmitting = 3
seconds_down tuning = 15
seconds_down _ = 0

abbrev pub InTime : ℕ → TransmitState → ℕ → Type 0
InTime since state t = (since ≤ t) × (t ≤ since + seconds_down state * 1000000000)

deadline_seconds :
    (state : TransmitState)
    → may_key state ≡ true
    → deadline state ≡ seconds_down state * 1000000000
deadline_seconds transmitting m = refl
deadline_seconds tuning m = refl
deadline_seconds disarmed m = absurd (cc m)
deadline_seconds armed m = absurd (cc m)
deadline_seconds awaiting_confirmation m = absurd (cc m)
deadline_seconds confirmed m = absurd (cc m)
deadline_seconds fault m = absurd (cc m)

-- One more observation of a line that is down passes exactly within the deadline.
observe_more :
    (since t : ℕ) (g : Guard)
    → IsDown since g
    → ((observe_key_state true t g ≡ (g, true)) × InTime since g.state t)
      ⊎ ((observe_key_state true t g ≡ (trip_fault g, false)) × (¬ InTime since g.state t))
unfolding observe_key_state
observe_more since t g d =
    let same = deadline_seconds g.state d.0 in
    elim (Bool-cases
      (ltb t g.key_down_since_ns || ltb (deadline g.state) (t - g.key_down_since_ns))) [
        | inl e ↦ inr (ground arith, λ h. ground (arith, h, same))
        | inr e ↦ inl (ground arith, ground (arith, same))
      ]

observe_first :
    (since : ℕ) (g : Guard)
    → may_key g.state ≡ true
    → g.key_down ≡ false
    → (observe_key_state true since g).0 ≡ record g { key_down = true; key_down_since_ns = since }
unfolding observe_key_state
observe_first since g m u = ground arith

observe_down-cons :
    (t : ℕ) (ts : List ℕ) (g : Guard)
    → (observe_down (t ∷ ts) g).1
      ≡ ((observe_key_state true t g).1 && (observe_down ts (observe_key_state true t g).0).1)
unfolding observe_down
observe_down-cons t ts g = refl

observe_down-InTime :
    (since : ℕ) (ts : List ℕ) (g : Guard)
    → IsDown since g
    → ((observe_down ts g).1 ≡ true) ↔ All (InTime since g.state) ts
observe_down-InTime since [] g d = (λ _. tt, λ _. unfold observe_down in refl)
observe_down-InTime since (t ∷ ts) g d = elim (observe_more since t g d) [
  | inl (e, fine) ↦
      let (to, from) = observe_down-InTime since ts g d in
      rw (observe_down-cons t ts g, e) (λ h. (fine, to h), λ h. from h.1)
  | inr (e, late) ↦ rw (observe_down-cons t ts g, e) (λ h. cc h, λ h. absurd (late h.0))
]

-- From the moment that the key line is seen down in a transmission or a tune, further observations
-- of it down are all accepted exactly if each lies between that moment and the deadline: three
-- seconds after it in a transmission, fifteen in a tune.
pub watchdog_deadline :
    (since : ℕ) (ts : List ℕ) (g : Guard)
    → may_key g.state ≡ true
    → g.key_down ≡ false
    → ((observe_down ts (observe_key_state true since g).0).1 ≡ true)
      ↔ All (InTime since g.state) ts
watchdog_deadline since ts g m u =
    rw (observe_first since g m u) (observe_down-InTime since ts _ (m, refl, refl))

-- Outside a transmission and a tune, the line seen down is a fault that clears the message that was
-- pending, and the line seen up is accepted and changes nothing.
pub observe_unguarded :
    (t : ℕ) (g : Guard)
    → may_key g.state ≡ false
    → (observe_key_state true t g ≡ (trip_fault g, false))
      × ((observe_key_state false t g) ≡ (g, true))
      × ((trip_fault g).state ≡ fault)
      × ((trip_fault g).pending_message ≡ [])
      × ((trip_fault g).message_confirmed ≡ false)
unfolding observe_key_state trip_fault
observe_unguarded t g m = ground arith

-- The state that a call leads to from a fault.
abbrev pub left_by : Call → TransmitState
left_by resets = disarmed
left_by disarms = disarmed
left_by _ = fault

latched : (c : Call) (g : Guard) → g.state ≡ fault → (step c g).state ≡ left_by c
unfolding every_method
latched c g f = ground (arith, f)

at_rest :
    (c : Call) (g : Guard)
    → Inv g
    → g.state ≡ left_by c
    → (g.key_down ≡ false)
      × (g.pending_callsign ≡ [])
      × (g.pending_message ≡ [])
      × (g.message_confirmed ≡ false)
at_rest c g v led = ground (arith, v, led)

-- Whatever was called before a fault and whichever policies those calls found: a reset and a disarm
-- lead from it to the disarmed state, and every other call leaves the fault. After the call the key
-- is up, and no station and no message is pending or confirmed.
pub fault_latched :
    (c : Call) (cs : List Call)
    → (after cs).state ≡ fault
    → ((after (c ∷ cs)).state ≡ left_by c)
      × ((after (c ∷ cs)).key_down ≡ false)
      × ((after (c ∷ cs)).pending_callsign ≡ [])
      × ((after (c ∷ cs)).pending_message ≡ [])
      × ((after (c ∷ cs)).message_confirmed ≡ false)
unfolding after
fault_latched c cs f =
    let led = latched c (after cs) f in
    let (key, callsign, message, agreed) = at_rest c (after (c ∷ cs)) (after-Inv (c ∷ cs)) led in
    (led, key, callsign, message, agreed)
