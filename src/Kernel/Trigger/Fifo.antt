-- ===== src/Kernel/Trigger/Fifo.antt =====
-- The run queues after `trigger` of crates/systemrs-kernel/src/inner.rs: the order of its four lists.
use mathlib.Core.List.{append-nil}
use systemrs.Base.{
  ℕ, ◌≡◌, refl, sym, ap, subst, ◌∙◌, List, [], ◌∷◌, ◌++◌, true, arith, reverse, All, Absent,
  Distinct, All-append, Distinct-append,
}
use systemrs.Kernel.Event.{Event}
use systemrs.Kernel.Process.{ProcKind, WaitState}
use systemrs.Kernel.State.{Inner, event_at, set_event}
use systemrs.Kernel.Trigger.{
  make_runnable_static, trigger_dynamic, fire_dynamic, fire_static, trigger, set_dynamic,
  dynamic_list, resolve_wait,
}
use systemrs.Kernel.Trigger.Ready.{
  StaticReady, WaitsFor, Appends, Appends-trans, All-Idle, fire_static-Appends, visit_all-Appends,
}
use systemrs.Kernel.Trigger.Order.{visit_order, visit_all, fire_dynamic-order}

fire_static-events : (list : List ℕ) (s : Inner) → (fire_static list s).events ≡ s.events
unfolding fire_static make_runnable_static
fire_static-events [] s = refl
fire_static-events (pid ∷ list) s =
    fire_static-events list (make_runnable_static s pid) ∙ ground arith

visit_all-events : (ev : ℕ) (list : List ℕ) (s : Inner) → (visit_all ev list s).events ≡ s.events
unfolding visit_all trigger_dynamic
visit_all-events ev [] s = refl
visit_all-events ev (pid ∷ list) s =
    visit_all-events ev list (trigger_dynamic s pid ev).1 ∙ ground arith

set_event-Appends :
    (kind : ProcKind) (s : Inner) (ev : ℕ) (f : Event → Event)
    → Appends kind [] s (set_event s ev f)
set_event-Appends ProcKind.method s ev f = record {
  queue = sym (append-nil _);
  rest = refl;
  running = refl;
  procs = λ q h. refl;
}
set_event-Appends ProcKind.thread s ev f = record {
  queue = sym (append-nil _);
  rest = refl;
  running = refl;
  procs = λ q h. refl;
}

Absent-All : (list : List ℕ) → All (λ y. Absent y []) list
Absent-All [] = tt
Absent-All (x ∷ list) = (tt, Absent-All list)

abbrev pub static_list : ProcKind → Event → List ℕ
static_list ProcKind.method e = e.static_methods
static_list ProcKind.thread e = e.static_threads

-- The subscribers of one kind: the static ones from the last down, then the dynamic ones.
abbrev pub order : ProcKind → Event → List ℕ
order kind e = reverse (static_list kind e) ++ visit_order (dynamic_list kind e)

fire_dynamic-Appends :
    (s : Inner) (ev : ℕ) (kind : ProcKind) (list : List ℕ)
    → list ≡ visit_order (dynamic_list kind (event_at s ev))
    → Distinct list
    → All (WaitsFor ev s kind) list
    → Appends kind list s (fire_dynamic s ev kind)
fire_dynamic-Appends s ev kind list e d r =
    let s' = set_event s ev (set_dynamic kind []) in
    let start = set_event-Appends kind s ev (set_dynamic kind []) in
    let walk =
      visit_all-Appends ev kind list s' d
        (All-Idle kind (λ w. (resolve_wait ev w).0 ≡ true) [] list start (Absent-All list) r) in
    let t = set_event (visit_all ev list s') ev (set_dynamic kind []) in
    rw (fire_dynamic-order s ev kind, ← e)
      (subst (λ (l : List ℕ). Appends kind l s t) (append-nil list)
        (Appends-trans list [] (Appends-trans [] list start walk)
          (set_event-Appends kind (visit_all ev list s') ev (set_dynamic kind []))))

-- The half of `trigger` for one kind of processes.
half : ProcKind → Inner → ℕ → Inner
half kind s ev = fire_dynamic (fire_static (reverse (static_list kind (event_at s ev))) s) ev kind

event_at-eq : (s t : Inner) (ev : ℕ) → t.events ≡ s.events → event_at t ev ≡ event_at s ev
event_at-eq s t ev e = rw e

abbrev threads : Event → List ℕ × List ℕ
threads e = (e.static_threads, e.dynamic_threads)

threads-set_event :
    (s : Inner) (ev : ℕ)
    → threads (event_at (set_event s ev (set_dynamic ProcKind.method [])) ev)
      ≡ threads (event_at s ev)
threads-set_event s ev = ground arith

-- The subscribers of the threads are not touched while the methods are served.
threads-half :
    (s : Inner) (ev : ℕ)
    → threads (event_at (half ProcKind.method s ev) ev) ≡ threads (event_at s ev)
unfolding half
threads-half s ev =
    let l = reverse (event_at s ev).static_methods in
    let s₁ = fire_static l s in
    let d = visit_order (event_at s₁ ev).dynamic_methods in
    let s' = set_event s₁ ev (set_dynamic ProcKind.method []) in
    let e₂ = event_at-eq s' (visit_all ev d s') ev (visit_all-events ev d s') in
    rw (fire_dynamic-order s₁ ev ProcKind.method) (
      threads-set_event (visit_all ev d s') ev
      ∙ ap threads e₂
      ∙ threads-set_event s₁ ev
      ∙ ap threads (event_at-eq s s₁ ev (fire_static-events l s)))

-- The subscribers of a kind are ready: the static ones wait on nothing else, and the event completes
-- the wait of the dynamic ones.
abbrev pub Ready : ℕ → Event → Inner → ProcKind → Type 0
Ready ev e s kind =
    All (StaticReady s kind) (reverse (static_list kind e))
    × All (WaitsFor ev s kind) (visit_order (dynamic_list kind e))

half-Appends :
    (kind : ProcKind) (s : Inner) (ev : ℕ) (e : Event)
    → static_list kind (event_at s ev) ≡ static_list kind e
    → dynamic_list kind (event_at s ev) ≡ dynamic_list kind e
    → Distinct (order kind e)
    → Ready ev e s kind
    → Appends kind (order kind e) s (half kind s ev)
unfolding half
half-Appends kind s ev e es ed distinct (st, dy) =
    let l = reverse (static_list kind e) in
    let d = visit_order (dynamic_list kind e) in
    let (d₁, d₂, apart) = Distinct-append l d distinct in
    let first = fire_static-Appends kind l s d₁ st in
    let same =
      ap (dynamic_list kind) (event_at-eq s (fire_static l s) ev (fire_static-events l s)) in
    rw es (
      Appends-trans l d first (
        fire_dynamic-Appends (fire_static l s) ev kind d (sym (ap visit_order (same ∙ ed))) d₂
          (All-Idle kind (λ w. (resolve_wait ev w).0 ≡ true) l d first apart dy)))

All-Ready :
    {kind : ProcKind} (kind' : ProcKind) (ev : ℕ) (e : Event) (xs : List ℕ) {s t : Inner}
    → Appends kind xs s t
    → All (λ y. Absent y xs) (order kind' e)
    → Ready ev e s kind'
    → Ready ev e t kind'
All-Ready kind' ev e xs a apart (st, dy) =
    let (h₁, h₂) =
      All-append (λ y. Absent y xs) (reverse (static_list kind' e))
        (visit_order (dynamic_list kind' e)) apart in
    (
      All-Idle kind' (λ w. w ≡ WaitState.static) xs (reverse (static_list kind' e)) a h₁ st,
      All-Idle kind' (λ w. (resolve_wait ev w).0 ≡ true) xs (visit_order (dynamic_list kind' e)) a
          h₂ dy,
    )

-- Triggering an event whose subscribers are all ready queues exactly its subscribers, in this order:
-- the static methods from the last to the first, the dynamic methods with the first one first and
-- then from the last one down, and so for the threads in their own queue. Ready means: no
-- subscriber is listed twice, is dead, queued or running, the static ones wait on nothing else, and
-- the event completes the wait of the dynamic ones.
pub trigger-order :
    (s : Inner) (ev : ℕ)
    → let e = event_at s ev in
      Distinct (order ProcKind.method e ++ order ProcKind.thread e)
      → Ready ev e s ProcKind.method
      → Ready ev e s ProcKind.thread
      → ((trigger s ev).method_push ≡ s.method_push ++ order ProcKind.method e)
        × ((trigger s ev).thread_push ≡ s.thread_push ++ order ProcKind.thread e)
unfolding trigger half
trigger-order s ev distinct methods threads' =
    let e = event_at s ev in
    let ms = order ProcKind.method e in
    let ts = order ProcKind.thread e in
    let (d₁, d₂, apart) = Distinct-append ms ts distinct in
    let s₀ = set_event s ev (λ e'. record e' { trigger_stamp = s.change_stamp }) in
    let stamped : Appends ProcKind.method [] s s₀ = record {
      queue = sym (append-nil _);
      rest = refl;
      running = refl;
      procs = λ q h. refl;
    } in
    let same : threads (event_at s₀ ev) ≡ threads e = ground arith in
    let a =
      half-Appends ProcKind.method s₀ ev e (ground arith) (ground arith) d₁
        (All-Ready ProcKind.method ev e [] stamped (Absent-All ms) methods) in
    let ab = Appends-trans [] ms stamped a in
    let lists = threads-half s₀ ev ∙ same in
    let b =
      half-Appends ProcKind.thread (half ProcKind.method s₀ ev) ev e
        (ap (λ (p : List ℕ × List ℕ). p.0) lists) (ap (λ (p : List ℕ × List ℕ). p.1) lists) d₂
        (All-Ready ProcKind.thread ev e ms ab apart threads') in
    (b.rest ∙ ab.queue, b.queue ∙ ap (λ l. l ++ ts) ab.rest)
