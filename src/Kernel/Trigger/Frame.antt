-- ===== src/Kernel/Trigger/Frame.antt =====
-- The part of the kernel state that the triggering of crates/systemrs-kernel/src/inner.rs is about, and
-- the rest.
use systemrs.Base.{
  ℕ, zero, suc, ◌≡◌, refl, ap, ◌∙◌, List, [], ◌∷◌, none, true, arith, ◌==◌, reverse, get_elem?,
  swap_remove, Bool-cases, Option-cases, inl, inr,
}
use systemrs.Base.Arena.{Arena}
use systemrs.Kernel.Event.{Event}
use systemrs.Kernel.Process.{Process, ProcKind}
use systemrs.Kernel.State.{Inner, pending_of, event_at, set_event, set_proc, IsEvent}
use systemrs.Kernel.Trigger.{
  make_runnable, wake_process, make_runnable_static, trigger_dynamic, dynamic_loop, fire_dynamic,
  fire_static, trigger, set_dynamic, resolve_wait,
}

-- The second state has what the first has due, its clock, its wheel and its queues being drained.
pub record Keeps (s t : Inner) : Type 0 where
  pub pending : (j : ℕ) → pending_of t j ≡ pending_of s j
  pub known : (k : ℕ) → IsEvent s k → IsEvent t k
  pub absent : (k : ℕ) → s.events.get k ≡ none → t.events.get k ≡ none
  pub size : t.events.size ≡ s.events.size
  pub delta_events : t.delta_events ≡ s.delta_events
  pub delta_wakes : t.delta_wakes ≡ s.delta_wakes
  pub timed : t.timed ≡ s.timed
  pub now : t.now ≡ s.now
  pub seq : t.seq ≡ s.seq
  pub phase : t.phase ≡ s.phase
  pub running : t.running ≡ s.running
  pub method_pop : t.method_pop ≡ s.method_pop
  pub thread_pop : t.thread_pop ≡ s.thread_pop
  pub update_queue : t.update_queue ≡ s.update_queue
  pub delta_count : t.delta_count ≡ s.delta_count
  pub change_stamp : t.change_stamp ≡ s.change_stamp

pub Keeps-refl : (s : Inner) → Keeps s s
Keeps-refl s = record {
  pending = λ j. refl;
  known = λ k h. h;
  absent = λ k h. h;
  size = refl;
  delta_events = refl;
  delta_wakes = refl;
  timed = refl;
  now = refl;
  seq = refl;
  phase = refl;
  running = refl;
  method_pop = refl;
  thread_pop = refl;
  update_queue = refl;
  delta_count = refl;
  change_stamp = refl;
}

pub Keeps-trans : {s t u : Inner} → Keeps s t → Keeps t u → Keeps s u
Keeps-trans a b = record {
  pending = λ j. b.pending j ∙ a.pending j;
  known = λ k h. b.known k (a.known k h);
  absent = λ k h. b.absent k (a.absent k h);
  size = b.size ∙ a.size;
  delta_events = b.delta_events ∙ a.delta_events;
  delta_wakes = b.delta_wakes ∙ a.delta_wakes;
  timed = b.timed ∙ a.timed;
  now = b.now ∙ a.now;
  seq = b.seq ∙ a.seq;
  phase = b.phase ∙ a.phase;
  running = b.running ∙ a.running;
  method_pop = b.method_pop ∙ a.method_pop;
  thread_pop = b.thread_pop ∙ a.thread_pop;
  update_queue = b.update_queue ∙ a.update_queue;
  delta_count = b.delta_count ∙ a.delta_count;
  change_stamp = b.change_stamp ∙ a.change_stamp;
}

-- A write to a process or to a queue being filled.
abbrev Plain : Inner → Inner → Type 0
Plain s t =
    (t.events ≡ s.events)
    × (t.delta_events ≡ s.delta_events)
    × (t.delta_wakes ≡ s.delta_wakes)
    × (t.timed ≡ s.timed)
    × (t.now ≡ s.now)
    × (t.seq ≡ s.seq)
    × (t.phase ≡ s.phase)
    × (t.running ≡ s.running)
    × (t.method_pop ≡ s.method_pop)
    × (t.thread_pop ≡ s.thread_pop)
    × (t.update_queue ≡ s.update_queue)
    × (t.delta_count ≡ s.delta_count)
    × (t.change_stamp ≡ s.change_stamp)

Plain-Keeps : {s t : Inner} → Plain s t → Keeps s t
Plain-Keeps (e, d, w, ti, n, q, ph, r, mp, tp, u, dc, cs) = record {
  pending = λ j. rw e;
  known = λ k h. rw e h;
  absent = λ k h. rw e h;
  size = ap (λ (a : Arena Event). a.size) e;
  delta_events = d;
  delta_wakes = w;
  timed = ti;
  now = n;
  seq = q;
  phase = ph;
  running = r;
  method_pop = mp;
  thread_pop = tp;
  update_queue = u;
  delta_count = dc;
  change_stamp = cs;
}

pub make_runnable-Keeps : (s : Inner) (pid : ℕ) → Keeps s (make_runnable s pid)
unfolding make_runnable
make_runnable-Keeps s pid = Plain-Keeps (ground arith)

-- A write to an event that leaves its notification.
pub set_event-Keeps :
    (s : Inner) (ev : ℕ) (f : Event → Event)
    → ((e : Event) → (f e).pending ≡ e.pending)
    → Keeps s (set_event s ev f)
set_event-Keeps s ev f same = record {
  pending = λ j. elim (Option-cases (s.events.get j)) [
    | inl h ↦ ground arith
    | inr (e, h) ↦ ground (arith, same e)
  ];
  known = λ k (e, h). elim (Bool-cases (ev == k)) [
    | inl hit ↦ (f e, rw (hit, h))
    | inr miss ↦ (e, rw (miss, h))
  ];
  absent = λ k h. elim (Bool-cases (ev == k)) [ inl hit ↦ rw (hit, h) | inr miss ↦ rw (miss, h) ];
  size = refl;
  delta_events = refl;
  delta_wakes = refl;
  timed = refl;
  now = refl;
  seq = refl;
  phase = refl;
  running = refl;
  method_pop = refl;
  thread_pop = refl;
  update_queue = refl;
  delta_count = refl;
  change_stamp = refl;
}

pub set_proc-Keeps : (s : Inner) (pid : ℕ) (f : Process → Process) → Keeps s (set_proc s pid f)
set_proc-Keeps s pid f =
    Plain-Keeps (refl, refl, refl, refl, refl, refl, refl, refl, refl, refl, refl, refl, refl)

set_dynamic-Keeps :
    (s : Inner) (ev : ℕ) (kind : ProcKind) (list : List ℕ)
    → Keeps s (set_event s ev (set_dynamic kind list))
set_dynamic-Keeps s ev ProcKind.method list = set_event-Keeps s ev _ (λ e. refl)
set_dynamic-Keeps s ev ProcKind.thread list = set_event-Keeps s ev _ (λ e. refl)

pub wake_process-Keeps : (s : Inner) (pid : ℕ) → Keeps s (wake_process s pid)
unfolding wake_process
wake_process-Keeps s pid = Keeps-trans (set_proc-Keeps s pid _) (make_runnable-Keeps _ pid)

make_runnable_static-Keeps : (s : Inner) (pid : ℕ) → Keeps s (make_runnable_static s pid)
unfolding make_runnable_static
make_runnable_static-Keeps s pid = ground (arith, Keeps-refl s, make_runnable-Keeps s pid)

trigger_dynamic-Keeps : (s : Inner) (pid ev : ℕ) → Keeps s (trigger_dynamic s pid ev).1
unfolding trigger_dynamic
trigger_dynamic-Keeps s pid ev = elim (Option-cases (s.procs.get pid)) [
  | inl h ↦ rw (h, trigger_dynamic) (Keeps-refl s)
  | inr (p, h) ↦
      rw (h, trigger_dynamic)
        (elim (Bool-cases p.dead) [
          | inl d ↦ rw d (Keeps-refl s)
          | inr d ↦ rw d (elim (Bool-cases (resolve_wait ev p.wait).0) [
            | inl w ↦ rw w (Keeps-trans (set_proc-Keeps s pid _) (wake_process-Keeps _ pid))
            | inr w ↦ rw w (set_proc-Keeps s pid _)
          ])
        ])
]

-- Every entry that is looked at is consumed.
pub trigger_dynamic-consumes : (s : Inner) (pid ev : ℕ) → (trigger_dynamic s pid ev).0 ≡ true
unfolding trigger_dynamic
trigger_dynamic-consumes s pid ev = ground arith

dynamic_loop-Keeps :
    (fuel ev i : ℕ) (list : List ℕ) (s : Inner) → Keeps s (dynamic_loop fuel ev i list s).1
unfolding dynamic_loop
dynamic_loop-Keeps zero ev i list s = Keeps-refl s
dynamic_loop-Keeps (suc fuel) ev i list s = elim (Option-cases (get_elem? list i)) [
  | inl h ↦ rw (h, dynamic_loop) (Keeps-refl s)
  | inr (pid, h) ↦
      rw (h, dynamic_loop, trigger_dynamic-consumes s pid ev)
        (Keeps-trans (trigger_dynamic-Keeps s pid ev)
          (dynamic_loop-Keeps fuel ev i (swap_remove list i) (trigger_dynamic s pid ev).1))
]

fire_dynamic-Keeps : (s : Inner) (ev : ℕ) (kind : ProcKind) → Keeps s (fire_dynamic s ev kind)
unfolding fire_dynamic
fire_dynamic-Keeps s ev kind =
    Keeps-trans (set_dynamic-Keeps s ev kind [])
      (Keeps-trans (dynamic_loop-Keeps _ ev 0 _ _) (set_dynamic-Keeps _ ev kind _))

fire_static-Keeps : (list : List ℕ) (s : Inner) → Keeps s (fire_static list s)
unfolding fire_static
fire_static-Keeps [] s = Keeps-refl s
fire_static-Keeps (pid ∷ below) s =
    Keeps-trans (make_runnable_static-Keeps s pid)
      (fire_static-Keeps below (make_runnable_static s pid))

pub trigger-Keeps : (s : Inner) (ev : ℕ) → Keeps s (trigger s ev)
unfolding trigger
trigger-Keeps s ev =
    let s₀ = set_event s ev (λ e. record e { trigger_stamp = s.change_stamp }) in
    let l₁ = reverse (event_at s₀ ev).static_methods in
    let s₁ = fire_static l₁ s₀ in
    let s₂ = fire_dynamic s₁ ev ProcKind.method in
    let l₃ = reverse (event_at s₂ ev).static_threads in
    let s₃ = fire_static l₃ s₂ in
    Keeps-trans
      (set_event-Keeps s ev (λ e. record e { trigger_stamp = s.change_stamp }) (λ e. refl))
      (Keeps-trans (fire_static-Keeps l₁ s₀) (
        Keeps-trans (fire_dynamic-Keeps s₁ ev ProcKind.method)
          (Keeps-trans (fire_static-Keeps l₃ s₂) (fire_dynamic-Keeps s₃ ev ProcKind.thread))))
