-- ===== src/Guard/Openings.antt =====
-- The gates on the way to the air in src/core/src/transmit_guard.cpp, and what one call does to
-- each.
use cw_buddy.Base.{
  ◌≡◌, ◌⊎◌, Bool, true, false, List, [], ◌∷◌, some, arith, inl, inr, Option-cases, is_empty,
}
use cw_buddy.Text.{Text, text_eq_iff}
use cw_buddy.Callsign.{normalize, is_ignored}
use cw_buddy.Guard.Message.{normalize_message}
use cw_buddy.Guard.Invariant.{Inv, is_named, settled}
use cw_buddy.Guard.{
  TransmitState, disarmed, confirmed, transmitting, fault, Guard, Call, arms, requests, confirms,
  stages, confirms_message, begins, step, after, every_method,
}

abbrev pub is_live : TransmitState → Bool
is_live disarmed = false
is_live fault = false
is_live _ = true

abbrev pub is_confirmed : TransmitState → Bool
is_confirmed confirmed = true
is_confirmed transmitting = true
is_confirmed _ = false

-- The gates on the way to the air, for a callsign or a message in normal form.
pub data Gate : Type 0 where
  armed_gate : Gate
  requested confirmed_gate begun : Text → Gate
  staged message_confirmed_gate : Text → Gate

-- Which call opens the gate.
abbrev pub Opens : Gate → Call → Type 0
Opens armed_gate arms = Unit
Opens (requested n) (requests policy c) = (normalize c ≡ some n) × (is_ignored policy n ≡ false)
Opens (confirmed_gate n) (confirms policy c) =
    (normalize c ≡ some n) × (is_ignored policy n ≡ false)
Opens (staged m) (stages t) = normalize_message t ≡ m
Opens (message_confirmed_gate m) (confirms_message t) = normalize_message t ≡ m
Opens (begun n) (begins policy) = is_ignored policy n ≡ false
Opens _ _ = ⊥

-- What the guard holds as long as the gate stays open.
abbrev pub Holds : Gate → Guard → Type 0
Holds armed_gate g = is_live g.state ≡ true
Holds (requested n) g = (is_named (settled g) ≡ true) × (g.pending_callsign ≡ n)
Holds (confirmed_gate n) g = (is_confirmed (settled g) ≡ true) × (g.pending_callsign ≡ n)
Holds (staged m) g = (is_empty g.pending_message ≡ false) × (g.pending_message ≡ m)
Holds (message_confirmed_gate m) g = (g.message_confirmed ≡ true) × (g.pending_message ≡ m)
Holds (begun n) g = (g.state ≡ transmitting) × (g.pending_callsign ≡ n)

-- The gates, the last one first, were opened in this order, and each has stayed open since.
abbrev pub Opened : List Gate → List Call → Type 0
Opened [] cs = Unit
Opened (gate ∷ gates) [] = ⊥
Opened (gate ∷ gates) (c ∷ cs) =
    (Opens gate c × Opened gates cs × Holds gate (after (c ∷ cs)))
    ⊎ (Holds gate (after (c ∷ cs)) × Opened (gate ∷ gates) cs)

-- One step seen from a gate: it is opened now, under the condition `P`, or it was open before.
abbrev Kept : Gate → (Guard → Type 0) → Call → Guard → Type 0
Kept gate P c g = (Opens gate c × P g) ⊎ Holds gate g

pub armed_step :
    (c : Call) (g : Guard) → is_live (step c g).state ≡ true → Kept armed_gate (λ _. Unit) c g
unfolding every_method
armed_step arms g h = inl (tt, tt)
armed_step c g h = inr (ground arith)

pub requested_step :
    (n : Text) (c : Call) (g : Guard)
    → Inv g
    → Holds (requested n) (step c g)
    → Kept (requested n) (λ g. is_live g.state ≡ true) c g
unfolding every_method
requested_step n (requests policy c) g v h = ground arith
requested_step n c g v h = inr (ground arith)

pub confirmed_step :
    (n : Text) (c : Call) (g : Guard)
    → Inv g
    → Holds (confirmed_gate n) (step c g)
    → Kept (confirmed_gate n) (Holds (requested n)) c g
unfolding every_method
confirmed_step n (confirms policy c) g v h = elim (Option-cases (normalize c)) [
  | inl e ↦ inr (ground arith)
  | inr (m, e) ↦ ground (arith, text_eq_iff m g.pending_callsign)
]
confirmed_step n c g v h = inr (ground arith)

-- A message is held for the station that is confirmed.
abbrev pub HoldsFor : Text → Gate → Guard → Type 0
HoldsFor n gate g = Holds gate g × Holds (confirmed_gate n) g

pub staged_step :
    (n m : Text) (c : Call) (g : Guard)
    → Inv g
    → HoldsFor n (staged m) (step c g)
    → (Opens (staged m) c × Holds (confirmed_gate n) g) ⊎ HoldsFor n (staged m) g
unfolding every_method
staged_step n m (stages t) g v h = ground arith
staged_step n m c g v h = inr (ground arith)

pub message_step :
    (n m : Text) (c : Call) (g : Guard)
    → Inv g
    → HoldsFor n (message_confirmed_gate m) (step c g)
    → (Opens (message_confirmed_gate m) c × HoldsFor n (staged m) g)
      ⊎ HoldsFor n (message_confirmed_gate m) g
unfolding every_method
message_step n m (confirms_message t) g v h =
    ground (arith, text_eq_iff (normalize_message t) g.pending_message)
message_step n m c g v h = inr (ground arith)

pub begun-step :
    (n m : Text) (c : Call) (g : Guard)
    → Inv g
    → Holds (begun n) (step c g) × ((step c g).pending_message ≡ m)
    → (Opens (begun n) c × HoldsFor n (message_confirmed_gate m) g)
      ⊎ (Holds (begun n) g × (g.pending_message ≡ m))
unfolding every_method
begun-step n m (begins policy) g v h = ground arith
begun-step n m c g v h = inr (ground arith)
