-- ===== src/Guard/Gates.antt =====
-- The order of the gates of src/core/src/transmit_guard.cpp: what a history of calls holds when the
-- guard transmits. Histories have the newest call first.
use cw_buddy.Base.{◌≡◌, refl, List, [], ◌∷◌, inl, inr}
use cw_buddy.Text.{Text}
use cw_buddy.Guard.Message.{normalize_message}
use cw_buddy.Guard.Invariant.{after-Inv}
use cw_buddy.Guard.{transmitting, new_guard, Call, confirms_message, after}
use cw_buddy.Guard.Openings.{
  Gate, Opens, Holds, Opened, armed_step, requested_step, confirmed_step, HoldsFor, staged_step,
  message_step, begun-step, armed_gate, requested, confirmed_gate, begun, staged,
  message_confirmed_gate,
}

Opened-armed : (cs : List Call) → Holds armed_gate (after cs) → Opened (armed_gate ∷ []) cs
unfolding after
Opened-armed [] h = unfold new_guard in cc h
Opened-armed (c ∷ cs) h = elim (armed_step c (after cs) h) [
  | inl now ↦ inl (now.0, tt, h)
  | inr before ↦ inr (h, Opened-armed cs before)
]

Opened-requested :
    (n : Text) (cs : List Call)
    → Holds (requested n) (after cs)
    → Opened (requested n ∷ armed_gate ∷ []) cs
unfolding after
Opened-requested n [] h = unfold new_guard in cc (h.0)
Opened-requested n (c ∷ cs) h = elim (requested_step n c (after cs) (after-Inv cs) h) [
  | inl now ↦ inl (now.0, Opened-armed cs now.1, h)
  | inr before ↦ inr (h, Opened-requested n cs before)
]

Opened-confirmed :
    (n : Text) (cs : List Call)
    → Holds (confirmed_gate n) (after cs)
    → Opened (confirmed_gate n ∷ requested n ∷ armed_gate ∷ []) cs
unfolding after
Opened-confirmed n [] h = unfold new_guard in cc (h.0)
Opened-confirmed n (c ∷ cs) h = elim (confirmed_step n c (after cs) (after-Inv cs) h) [
  | inl now ↦ inl (now.0, Opened-requested n cs now.1, h)
  | inr before ↦ inr (h, Opened-confirmed n cs before)
]

Opened-staged :
    (n m : Text) (cs : List Call)
    → HoldsFor n (staged m) (after cs)
    → Opened (staged m ∷ confirmed_gate n ∷ requested n ∷ armed_gate ∷ []) cs
unfolding after
Opened-staged n m [] h = unfold new_guard in cc (h.1.0)
Opened-staged n m (c ∷ cs) h = elim (staged_step n m c (after cs) (after-Inv cs) h) [
  | inl now ↦ inl (now.0, Opened-confirmed n cs now.1, h.0)
  | inr before ↦ inr (h.0, Opened-staged n m cs before)
]

Opened-message :
    (n m : Text) (cs : List Call)
    → HoldsFor n (message_confirmed_gate m) (after cs)
    → Opened
        (message_confirmed_gate m ∷ staged m ∷ confirmed_gate n ∷ requested n ∷ armed_gate ∷ [])
        cs
unfolding after
Opened-message n m [] h = unfold new_guard in cc (h.1.0)
Opened-message n m (c ∷ cs) h = elim (message_step n m c (after cs) (after-Inv cs) h) [
  | inl now ↦ inl (now.0, Opened-staged n m cs now.1, h.0)
  | inr before ↦ inr (h.0, Opened-message n m cs before)
]

-- The gates of a transmission of the message `m` to the station `n`, the last one first.
abbrev pub all_gates : Text → Text → List Gate
all_gates n m =
    begun n ∷ message_confirmed_gate m ∷ staged m ∷ confirmed_gate n ∷ requested n ∷ armed_gate ∷ []

Opened-all :
    (n m : Text) (cs : List Call)
    → Holds (begun n) (after cs) × ((after cs).pending_message ≡ m)
    → Opened (all_gates n m) cs
unfolding after
Opened-all n m [] h = unfold new_guard in cc (h.0.0)
Opened-all n m (c ∷ cs) h = elim (begun-step n m c (after cs) (after-Inv cs) h) [
  | inl now ↦ inl (now.0, Opened-message n m cs now.1, h.0)
  | inr before ↦ inr (h.0, Opened-all n m cs before)
]

-- If a history of calls ends with the guard transmitting, then its operator armed it, requested the
-- station that is pending, confirmed the same station, staged the message that is pending,
-- confirmed the same message and began the transmission, in this order; the station was not ignored
-- when it was requested, confirmed and transmitted to, and each gate has stayed open ever since.
pub transmitting_needs_gates :
    (cs : List Call)
    → (after cs).state ≡ transmitting
    → Opened (all_gates (after cs).pending_callsign (after cs).pending_message) cs
transmitting_needs_gates cs h = Opened-all _ _ cs ((h, refl), refl)

-- A gate that was opened was opened by some call.
pub Opened-call :
    (gate : Gate) (gates : List Gate) (cs : List Call)
    → Opened (gate ∷ gates) cs
    → (c : Call) × Opens gate c
Opened-call gate gates [] o = absurd o
Opened-call gate gates (c ∷ cs) (inl now) = (c, now.0)
Opened-call gate gates (c ∷ cs) (inr before) = Opened-call gate gates cs before.1

-- The gates before it were opened in a part of the history.
pub Opened-tail :
    (gate : Gate) (gates : List Gate) (cs : List Call)
    → Opened (gate ∷ gates) cs
    → (ds : List Call) × Opened gates ds
Opened-tail gate gates [] o = absurd o
Opened-tail gate gates (c ∷ cs) (inl now) = (cs, now.1)
Opened-tail gate gates (c ∷ cs) (inr before) = Opened-tail gate gates cs before.1

confirmed_text :
    (m : Text) (c : Call)
    → Opens (message_confirmed_gate m) c
    → (t : Text) × (normalize_message t ≡ m)
confirmed_text m (confirms_message t) o = (t, o)
confirmed_text m c o = absurd o

confirmed_in :
    (n m : Text) (cs : List Call)
    → Opened (all_gates n m) cs
    → (t : Text) × (normalize_message t ≡ m)
confirmed_in n m cs o =
    let older = staged m ∷ confirmed_gate n ∷ requested n ∷ armed_gate ∷ [] in
    let (ds, inner) = Opened-tail (begun n) (message_confirmed_gate m ∷ older) cs o in
    let (c, opens) = Opened-call (message_confirmed_gate m) older ds inner in
    confirmed_text m c opens

-- The message on the air is the normal form of a text that the operator confirmed.
pub transmitting_message :
    (cs : List Call)
    → (after cs).state ≡ transmitting
    → (t : Text) × (normalize_message t ≡ (after cs).pending_message)
transmitting_message cs h =
    let g = after cs in
    confirmed_in g.pending_callsign g.pending_message cs (transmitting_needs_gates cs h)
