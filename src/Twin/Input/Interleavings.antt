-- ===== src/Twin/Input/Interleavings.antt =====
-- The gate of crates/systemrs-twin/src/input.rs and its producers, in every order of their steps.
use systemrs.Base.{List, [], ◌∷◌, ◌++◌, true, false, ◌≡◌, refl, ap, ◌∙◌, sym}
use mathlib.Core.List.{append_assoc, append-nil}
use systemrs.Twin.Input.{
  GatePoint, Shared, send, poll, gate, World, Steps, send_step, stop_step, gate_step,
}

module _ {A : Type 0} where
  abbrev values : World A → List A
  values w = w.injected ++ w.shared.inbox

  gate-values :
      (p : GatePoint) (s : Shared A) (injected : List A)
      → (let (_, vs, s2) = gate p s in (injected ++ vs) ++ s2.inbox) ≡ injected ++ s.inbox
  unfolding gate poll
  gate-values GatePoint.polling s injected = append-nil (injected ++ s.inbox)
  gate-values GatePoint.testing s injected = ap (λ t. t ++ s.inbox) (append-nil injected)
  gate-values GatePoint.parked s injected = ap (λ t. t ++ s.inbox) (append-nil injected)
  gate-values (GatePoint.returned o) s injected = ap (λ t. t ++ s.inbox) (append-nil injected)

  gate-alive :
      (p : GatePoint) (s : Shared A)
      → (let (_, _, s2) = gate p s in s2.receiver_alive) ≡ s.receiver_alive
  unfolding gate poll
  gate-alive GatePoint.polling s = refl
  gate-alive GatePoint.testing s = refl
  gate-alive GatePoint.parked s = refl
  gate-alive (GatePoint.returned o) s = refl

  send-alive :
      (s : Shared A) (v : A)
      → s.receiver_alive ≡ true
      → (let (s2, _) = send s v in s2) ≡ record s { inbox = s.inbox ++ v ∷ [] }
  unfolding send
  send-alive s v h = rw h refl

  send_step-values :
      (w : World A) (v : A)
      → w.shared.receiver_alive ≡ true
      → values (send_step w v) ≡ values w ++ v ∷ []
  unfolding send_step
  send_step-values w v h =
      ap (λ s. w.injected ++ s.inbox) (send-alive w.shared v h)
      ∙ sym (append_assoc w.injected w.shared.inbox (v ∷ []))

  -- In whatever order the steps of a gate and of its producers come, what has been injected and what
  -- waits in the inbox of a live receiver are the values that were there and those that were sent since,
  -- in the order in which they were sent: none is lost, doubled or overtaken.
  pub Steps-values :
      (w w2 : World A) (vs : List A)
      → Steps w vs w2
      → w.shared.receiver_alive ≡ true
      → w2.injected ++ w2.shared.inbox ≡ (w.injected ++ w.shared.inbox) ++ vs
  unfolding send_step gate_step
  Steps-values _ _ _ (Steps.done w) alive = sym (append-nil (values w))
  Steps-values w w2 (v ∷ vs) (Steps.sends _ _ rest) alive =
      Steps-values (send_step w v) w2 vs rest
        (ap (λ s. s.receiver_alive) (send-alive w.shared v alive) ∙ alive)
      ∙ ap (λ t. t ++ vs) (send_step-values w v alive)
      ∙ append_assoc (values w) (v ∷ []) vs
  Steps-values w w2 vs (Steps.stops _ rest) alive = Steps-values (stop_step w) w2 vs rest alive
  Steps-values w w2 vs (Steps.gates _ rest) alive =
      Steps-values (gate_step w) w2 vs rest (gate-alive w.point w.shared ∙ alive)
      ∙ ap (λ t. t ++ vs) (gate-values w.point w.shared w.injected)

  -- A gate that is about to poll an empty inbox.
  abbrev pub idle : List A → World A
  idle injected = record {
    point = GatePoint.polling;
    shared = record { inbox = []; receiver_alive = true; stopped = false };
    injected = injected;
  }
