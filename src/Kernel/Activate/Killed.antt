-- ===== src/Kernel/Activate/Killed.antt =====
-- What becomes of a process that is killed while it is queued: `Ctx::kill` of
-- crates/systemrs-kernel/src/ctx.rs against `resume_thread` and `run_method` of sim.rs.
use systemrs.Base.{ℕ, ◌≡◌, refl, List, ◌∷◌, none, some, true, false, arith}
use systemrs.Kernel.Process.{Process, ProcKind, ProcessBody}
use systemrs.Kernel.State.{Inner, set_proc}
use systemrs.Kernel.Ctx.{kill}
use systemrs.Kernel.Activate.{Program, panicked, run_process, begin_activation, fill}

-- A process that is killed keeps its place in the run queues.
kill-queues :
    (s : Inner) (pid : ℕ)
    → ((kill s pid).method_pop ≡ s.method_pop)
      × ((kill s pid).method_push ≡ s.method_push)
      × ((kill s pid).thread_pop ≡ s.thread_pop)
      × ((kill s pid).thread_push ≡ s.thread_push)
unfolding kill
kill-queues s pid = (ground arith, ground arith, ground arith, ground arith)

kill-queued_thread :
    {E : Type 0} (program : Program E) (env : E) (s : Inner) (pid : ℕ) (rest : List ℕ) (p : Process)
    → s.procs.get pid ≡ some p
    → p.body ≡ ProcessBody.thread true
    → p.dead ≡ false
    → s.thread_pop ≡ pid ∷ rest
    → ((kill s pid).thread_pop ≡ pid ∷ rest)
      × (run_process program ProcKind.thread pid (record (kill s pid) { thread_pop = rest }, env)
          ≡ panicked)
unfolding run_process kill
kill-queued_thread program env s pid rest p found parked alive first = (ground arith, ground arith)

kill-queued_method :
    (s : Inner) (pid : ℕ) (rest : List ℕ) (p : Process)
    → s.procs.get pid ≡ some p
    → p.body ≡ ProcessBody.method true
    → p.dead ≡ false
    → s.method_pop ≡ pid ∷ rest
    → ((kill s pid).method_pop ≡ pid ∷ rest)
      × ((t : Inner) × (begin_activation ProcKind.method
              (record (kill s pid) { method_pop = rest })
              pid
            ≡ some t)
          × (t.running ≡ some pid))
unfolding begin_activation kill
kill-queued_method s pid rest p found parked alive first = (
  ground arith,
  (
    record (set_proc (record (kill s pid) { method_pop = rest }) pid
        (λ x. record x { queued = false; pending_wait = none; body = fill false x.body })) {
          running = some pid;
        },
    ground arith,
    refl,
  ),
)

-- A process that is killed while it is first in its run queue is still there afterwards, and the queue
-- being filled is as it was. A thread has lost its coroutine, and the kernel panics when it takes
-- the thread out to resume it; a method runs once more: when the kernel takes it out, its
-- activation starts.
pub kill-queued :
    {E : Type 0} (program : Program E) (env : E) (s : Inner) (pid qid : ℕ) (rest others : List ℕ)
    (p q : Process)
    → s.procs.get pid ≡ some p
    → p.body ≡ ProcessBody.thread true
    → p.dead ≡ false
    → s.thread_pop ≡ pid ∷ rest
    → s.procs.get qid ≡ some q
    → q.body ≡ ProcessBody.method true
    → q.dead ≡ false
    → s.method_pop ≡ qid ∷ others
    → ((kill s pid).thread_pop ≡ pid ∷ rest)
      × ((kill s pid).thread_push ≡ s.thread_push)
      × (run_process program ProcKind.thread pid (record (kill s pid) { thread_pop = rest }, env)
          ≡ panicked)
      × ((kill s qid).method_pop ≡ qid ∷ others)
      × ((kill s qid).method_push ≡ s.method_push)
      × ((t : Inner) × (begin_activation ProcKind.method
              (record (kill s qid) { method_pop = others })
              qid
            ≡ some t)
          × (t.running ≡ some qid))
kill-queued program env s pid qid rest others p q a b c d e f g h =
    let (stays, panics) = kill-queued_thread program env s pid rest p a b c d in
    let (waits, starts) = kill-queued_method s qid others q e f g h in
    (stays, (kill-queues s pid).3, panics, waits, (kill-queues s qid).1, starts)
