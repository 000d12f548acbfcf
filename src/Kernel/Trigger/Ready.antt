-- ===== src/Kernel/Trigger/Ready.antt =====
-- The run queues that `trigger` of crates/systemrs-kernel/src/inner.rs fills, when every subscriber is
-- ready: no process is dead, queued already or running.
use mathlib.Core.List.{append-nil, append_assoc}
use systemrs.Base.{
  ℕ, ◌≡◌, ◌≢◌, refl, sym, ap, ◌∙◌, List, [], ◌∷◌, ◌++◌, some, true, false, arith, All, Absent,
  Distinct, All-append, Distinct-append, ==_refl, incr_u64, ◌||◌,
}
use systemrs.Kernel.Process.{Process, ProcKind, WaitState, in_dynamic_wait}
use systemrs.Kernel.State.{Inner, set_proc}
use systemrs.Kernel.Trigger.{
  make_runnable, wake_process, make_runnable_static, trigger_dynamic, fire_static, resolve_wait,
}
use systemrs.Kernel.Trigger.Order.{visit_all}

abbrev pub queue_of : ProcKind → Inner → List ℕ
queue_of ProcKind.method s = s.method_push
queue_of ProcKind.thread s = s.thread_push

abbrev pub other : ProcKind → ProcKind
other ProcKind.method = ProcKind.thread
other ProcKind.thread = ProcKind.method

-- A process that can be queued, with its wait state.
pub record Idle (s : Inner) (kind : ProcKind) (W : WaitState → Type 0) (pid : ℕ) : Type 0 where
  pub process : Process
  pub found : s.procs.get pid ≡ some process
  pub has_kind : process.kind ≡ kind
  pub alive : process.dead ≡ false
  pub unqueued : process.queued ≡ false
  pub not_running : s.running ≢ some pid
  pub waits : W process.wait

-- It waits on its static sensitivity only.
abbrev pub StaticReady : Inner → ProcKind → ℕ → Type 0
StaticReady s kind = Idle s kind (λ w. w ≡ WaitState.static)

-- The event completes its wait.
abbrev pub WaitsFor : ℕ → Inner → ProcKind → ℕ → Type 0
WaitsFor ev s kind = Idle s kind (λ w. (resolve_wait ev w).0 ≡ true)

-- The second state has the list at the end of the queue, and other processes as they were.
pub record Appends (kind : ProcKind) (list : List ℕ) (s t : Inner) : Type 0 where
  pub queue : queue_of kind t ≡ queue_of kind s ++ list
  pub rest : queue_of (other kind) t ≡ queue_of (other kind) s
  pub running : t.running ≡ s.running
  pub procs : (q : ℕ) → Absent q list → t.procs.get q ≡ s.procs.get q

pub Appends-trans :
    {kind : ProcKind} {s t u : Inner} (xs ys : List ℕ)
    → Appends kind xs s t
    → Appends kind ys t u
    → Appends kind (xs ++ ys) s u
Appends-trans xs ys a b = record {
  queue = rw (b.queue, a.queue) (append_assoc _ xs ys);
  rest = b.rest ∙ a.rest;
  running = b.running ∙ a.running;
  procs = λ q h. let (h₁, h₂) = All-append (λ y. q ≢ y) xs ys h in b.procs q h₂ ∙ a.procs q h₁;
}

Idle-Appends :
    {kind kind' : ProcKind} {W : WaitState → Type 0} {s t : Inner} {list : List ℕ} (q : ℕ)
    → Appends kind list s t
    → Absent q list
    → Idle s kind' W q
    → Idle t kind' W q
Idle-Appends q a h r = record {
  process = r.process;
  found = a.procs q h ∙ r.found;
  has_kind = r.has_kind;
  alive = r.alive;
  unqueued = r.unqueued;
  not_running = λ e. r.not_running (sym a.running ∙ e);
  waits = r.waits;
}

make_runnable-Appends :
    (kind : ProcKind) (s : Inner) (pid : ℕ) (p : Process)
    → s.procs.get pid ≡ some p
    → p.kind ≡ kind
    → p.dead ≡ false
    → p.queued ≡ false
    → s.running ≢ some pid
    → Appends kind (pid ∷ []) s (make_runnable s pid)
unfolding make_runnable
make_runnable-Appends ProcKind.method s pid p f k d u r = record {
  queue = ground arith;
  rest = ground arith;
  running = ground arith;
  procs = λ q (h, _). ground (arith, h);
}
make_runnable-Appends ProcKind.thread s pid p f k d u r = record {
  queue = ground arith;
  rest = ground arith;
  running = ground arith;
  procs = λ q (h, _). ground (arith, h);
}

static-Appends :
    (kind : ProcKind) (s : Inner) (pid : ℕ)
    → StaticReady s kind pid
    → Appends kind (pid ∷ []) s (make_runnable_static s pid)
unfolding make_runnable_static
static-Appends kind s pid r =
    let e : (r.process.dead || in_dynamic_wait r.process) ≡ false =
      ground (arith, r.alive, r.waits) in
    rw (r.found, make_runnable_static, e)
      (make_runnable-Appends kind s pid r.process r.found r.has_kind r.alive r.unqueued
        r.not_running)

queue-set_proc :
    (kind : ProcKind) (s : Inner) (pid : ℕ) (f : Process → Process)
    → queue_of kind (set_proc s pid f) ≡ queue_of kind s
queue-set_proc ProcKind.method s pid f = refl
queue-set_proc ProcKind.thread s pid f = refl

-- A write to one process, before it is made runnable.
write-Appends :
    (kind : ProcKind) (s t : Inner) (pid : ℕ) (f : Process → Process)
    → Appends kind (pid ∷ []) (set_proc s pid f) t
    → Appends kind (pid ∷ []) s t
write-Appends kind s t pid f a = record {
  queue = a.queue ∙ ap (λ l. l ++ pid ∷ []) (queue-set_proc kind s pid f);
  rest = a.rest ∙ queue-set_proc (other kind) s pid f;
  running = a.running;
  procs = λ q (h, u). a.procs q (h, u) ∙ ground (arith, h);
}

wake-Appends :
    (kind : ProcKind) (s : Inner) (pid : ℕ) (p : Process)
    → s.procs.get pid ≡ some p
    → p.kind ≡ kind
    → p.dead ≡ false
    → p.queued ≡ false
    → s.running ≢ some pid
    → Appends kind (pid ∷ []) s (wake_process s pid)
unfolding wake_process
wake-Appends kind s pid p f k d u r =
    write-Appends kind s _ pid
      (λ q. record q { wait_gen = incr_u64 q.wait_gen; wait = WaitState.static })
      (make_runnable-Appends kind _ pid
        (record p { wait_gen = incr_u64 p.wait_gen; wait = WaitState.static }) (rw (==_refl pid, f))
        k d u r)

dynamic-Appends :
    (ev : ℕ) (kind : ProcKind) (s : Inner) (pid : ℕ)
    → WaitsFor ev s kind pid
    → Appends kind (pid ∷ []) s (trigger_dynamic s pid ev).1
unfolding trigger_dynamic
dynamic-Appends ev kind s pid r =
    rw (r.found, trigger_dynamic, r.alive, r.waits)
      (write-Appends kind s _ pid (λ q. record q { wait = (resolve_wait ev r.process.wait).1 })
        (wake-Appends kind _ pid (record r.process { wait = (resolve_wait ev r.process.wait).1 })
          (rw (==_refl pid, r.found)) r.has_kind r.alive r.unqueued r.not_running))

module _ {kind : ProcKind} (kind' : ProcKind) (W : WaitState → Type 0) {s t : Inner} where
  pub All-Idle :
      (xs list : List ℕ)
      → Appends kind xs s t
      → All (λ y. Absent y xs) list
      → All (Idle s kind' W) list
      → All (Idle t kind' W) list
  All-Idle xs [] a h r = tt
  All-Idle xs (q ∷ list) a (h, hs) (r, rs) = (Idle-Appends q a h r, All-Idle xs list a hs rs)

Appends-nil : (kind : ProcKind) (s : Inner) → Appends kind [] s s
Appends-nil kind s = record {
  queue = sym (append-nil _);
  rest = refl;
  running = refl;
  procs = λ q h. refl;
}

pub fire_static-Appends :
    (kind : ProcKind) (list : List ℕ) (s : Inner)
    → Distinct list
    → All (StaticReady s kind) list
    → Appends kind list s (fire_static list s)
unfolding fire_static
fire_static-Appends kind [] s d r = Appends-nil kind s
fire_static-Appends kind (pid ∷ list) s d (r, rs) =
    let step = static-Appends kind s pid r in
    let (_, d', apart) = Distinct-append (pid ∷ []) list d in
    Appends-trans (pid ∷ []) list step (
      fire_static-Appends kind list (make_runnable_static s pid) d'
        (All-Idle kind (λ w. w ≡ WaitState.static) (pid ∷ []) list step apart rs))

pub visit_all-Appends :
    (ev : ℕ) (kind : ProcKind) (list : List ℕ) (s : Inner)
    → Distinct list
    → All (WaitsFor ev s kind) list
    → Appends kind list s (visit_all ev list s)
unfolding visit_all
visit_all-Appends ev kind [] s d r = Appends-nil kind s
visit_all-Appends ev kind (pid ∷ list) s d (r, rs) =
    let step = dynamic-Appends ev kind s pid r in
    let (_, d', apart) = Distinct-append (pid ∷ []) list d in
    Appends-trans (pid ∷ []) list step (
      visit_all-Appends ev kind list (trigger_dynamic s pid ev).1 d'
        (All-Idle kind (λ w. (resolve_wait ev w).0 ≡ true) (pid ∷ []) list step apart rs))
