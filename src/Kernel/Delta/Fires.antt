-- ===== src/Kernel/Delta/Fires.antt =====
-- What the notify phase of crates/systemrs-kernel/src/sim.rs fires.
use mathlib.Core.List.{reverse-cons}
use systemrs.Base.{
  ℕ, suc, ◌+◌, ◌≤◌, ◌<◌, ◌≡◌, ◌≢◌, refl, sym, ap, subst, ◌∙◌, List, [], ◌∷◌, ◌++◌, some, length,
  get_elem?, reverse, incr_u64, arith,
}
use systemrs.Kernel.Event.{Pending}
use systemrs.Kernel.State.{Inner, Phase, pending_of, set_pending}
use systemrs.Kernel.Notify.Slots.{SlotsAgree}
use systemrs.Kernel.Trigger.{trigger}
use systemrs.Kernel.Trigger.Frame.{trigger-Keeps}
use systemrs.Kernel.Delta.Wakes.{
  Wakes, wake_deltas-Woken, wake_deltas-Unnamed, wake_deltas-Grows, wake_deltas-events,
}
use systemrs.Kernel.Delta.{fire_pending, fire_deltas, wake_deltas, notify_phase}

-- Every event of the list is triggered, one after the other, whatever it has pending.
abbrev pub trigger_all : List ℕ → Inner → Inner
trigger_all [] s = s
trigger_all (ev ∷ list) s = trigger_all list (trigger (set_pending s ev Pending.none) ev)

-- The events of a list of slots, the last slot first, from slot `k` on.
abbrev Slots : ℕ → List ℕ → Inner → Type 0
Slots k [] s = Unit
Slots k (ev ∷ list) s = (pending_of s ev ≡ Pending.delta (k + length list)) × Slots k list s

length-snoc : (xs : List ℕ) (x : ℕ) → length (xs ++ x ∷ []) ≡ suc (length xs)
length-snoc [] x = refl
length-snoc (y ∷ xs) x = ap suc (length-snoc xs x)

Slots-snoc :
    (k : ℕ) (list : List ℕ) (ev : ℕ) (s : Inner)
    → Slots (suc k) list s
    → pending_of s ev ≡ Pending.delta k
    → Slots k (list ++ ev ∷ []) s
Slots-snoc k [] ev s h p = (p ∙ ap Pending.delta (omega arith), tt)
Slots-snoc k (e ∷ list) ev s (q, h) p =
    (q ∙ ap Pending.delta (omega (arith, length-snoc list ev)), Slots-snoc k list ev s h p)

reverse-Slots :
    (k : ℕ) (list : List ℕ) (s : Inner)
    → ((i ev : ℕ) → get_elem? list i ≡ some ev → pending_of s ev ≡ Pending.delta (k + i))
    → Slots k (reverse list) s
reverse-Slots k [] s h = tt
reverse-Slots k (ev ∷ list) s h = rw (reverse-cons ev list) (
    Slots-snoc k (reverse list) ev s
      (reverse-Slots (suc k) list s (λ i e g. h (suc i) e g ∙ ap Pending.delta (omega arith)))
      (h 0 ev refl ∙ ap Pending.delta (omega arith)))

delta_index : Pending → ℕ
delta_index (Pending.delta i) = i
delta_index _ = 0

-- An event of another slot keeps what it has pending.
fire-other :
    (s : Inner) (ev k n m : ℕ)
    → pending_of s ev ≡ Pending.delta n
    → pending_of s k ≡ Pending.delta m
    → m < n
    → pending_of (trigger (set_pending s ev Pending.none) ev) k ≡ Pending.delta m
unfolding delta_index
fire-other s ev k n m p q less =
    let t = set_pending s ev Pending.none in
    let apart : ev ≢ k = λ e.
      let same : n ≡ m =
        sym (ap delta_index p) ∙ ap (λ x. delta_index (pending_of s x)) e ∙ ap delta_index q in
      omega (arith, same, less) in
    (trigger-Keeps t ev).pending k ∙ ground (arith, apart, q)

fire-Slots :
    (s : Inner) (ev n : ℕ) (list : List ℕ)
    → pending_of s ev ≡ Pending.delta n
    → length list ≤ n
    → Slots 0 list s
    → Slots 0 list (trigger (set_pending s ev Pending.none) ev)
fire-Slots s ev n [] p le h = tt
fire-Slots s ev n (k ∷ list) p le (q, h) = (
  fire-other s ev k n (length list) p (q ∙ ap Pending.delta (omega arith)) (omega arith)
      ∙ ap Pending.delta (omega arith),
  fire-Slots s ev n list p (omega arith) h,
)

-- No event of the list loses its notification before its turn.
pub fire_deltas-trigger_all :
    (list : List ℕ) (s : Inner) → Slots 0 list s → fire_deltas list s ≡ trigger_all list s
unfolding fire_deltas
fire_deltas-trigger_all [] s h = refl
fire_deltas-trigger_all (ev ∷ list) s (p, h) =
    ap (λ q. fire_deltas list (fire_pending s ev q)) p
    ∙ fire_deltas-trigger_all list (trigger (set_pending s ev Pending.none) ev)
        (fire-Slots s ev (length list) list (p ∙ ap Pending.delta (omega arith)) (omega arith) h)

trigger_all-wakes : (list : List ℕ) (s : Inner) → (trigger_all list s).delta_wakes ≡ s.delta_wakes
trigger_all-wakes [] s = refl
trigger_all-wakes (ev ∷ list) s =
    trigger_all-wakes list (trigger (set_pending s ev Pending.none) ev)
    ∙ (trigger-Keeps (set_pending s ev Pending.none) ev).delta_wakes

-- The notifications of `s` have been triggered, from the last slot down.
abbrev pub fired : Inner → Inner
fired s =
    trigger_all (reverse s.delta_events) (record s { phase = Phase.notify; delta_events = [] })

-- The phase after its triggers.
abbrev wakes_of : Inner → Inner
wakes_of u =
    let v = wake_deltas u.delta_wakes (record u { delta_wakes = [] }) in
    record v { delta_count = incr_u64 v.delta_count }

wakes_of-Wakes : (u : Inner) → Wakes u.delta_wakes u (wakes_of u)
wakes_of-Wakes u = record {
  woken = wake_deltas-Woken u.delta_wakes (record u { delta_wakes = [] });
  others = λ q h. wake_deltas-Unnamed u.delta_wakes (record u { delta_wakes = [] }) q h;
  queues = wake_deltas-Grows u.delta_wakes (record u { delta_wakes = [] });
}

notify_phase-fired : (s : Inner) → SlotsAgree s → notify_phase s ≡ wakes_of (fired s)
unfolding notify_phase
notify_phase-fired s ok = ap wakes_of (
    fire_deltas-trigger_all (reverse s.delta_events)
      (record s { phase = Phase.notify; delta_events = [] })
      (reverse-Slots 0 s.delta_events (record s { phase = Phase.notify; delta_events = [] })
        (λ i ev h. ok.holds i ev h ∙ ap Pending.delta (omega arith))))

pub notify_phase-Wakes : (s : Inner) → SlotsAgree s → Wakes s.delta_wakes (fired s) (notify_phase s)
notify_phase-Wakes s ok =
    subst (λ t. Wakes s.delta_wakes (fired s) t) (sym (notify_phase-fired s ok))
      (subst (λ w. Wakes w (fired s) (wakes_of (fired s)))
        (trigger_all-wakes (reverse s.delta_events)
          (record s { phase = Phase.notify; delta_events = [] }))
        (wakes_of-Wakes (fired s)))

pub notify_phase-events : (s : Inner) → SlotsAgree s → (notify_phase s).events ≡ (fired s).events
notify_phase-events s ok =
    ap (λ t. t.events) (notify_phase-fired s ok)
    ∙ wake_deltas-events (fired s).delta_wakes (record (fired s) { delta_wakes = [] })
