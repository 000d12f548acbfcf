-- ===== src/Kernel/Wait/Timeouts.antt =====
-- The timeouts that `install_wait` of crates/systemrs-kernel/src/inner.rs arms and invalidates.
use systemrs.Base.{
  ℕ, ◌≡◌, ◌<◌, refl, List, [], ◌∷◌, Option, none, some, false, arith, incr_u64, u64_max,
}
use systemrs.Time.{SimTime}
use systemrs.Kernel.Process.{Process, ProcKind, WaitReq}
use systemrs.Kernel.State.{Inner, TimedTarget, set_proc}
use systemrs.Kernel.Wheel.{is_live}
use systemrs.Kernel.Wait.{install_wait, install_req, subscribe_dynamic, subscribe_all}

-- The processes after a wait is installed: the generation of the process has moved on.
abbrev generation : Inner → ℕ → Option ℕ
generation s pid = elim (s.procs.get pid) [ none ↦ none | some p ↦ some p.wait_gen ]

subscribe_all-procs :
    (list : List ℕ) (pid : ℕ) (kind : ProcKind) (s : Inner)
    → (subscribe_all list pid kind s).procs ≡ s.procs
unfolding subscribe_all
subscribe_all-procs [] pid kind s = refl
subscribe_all-procs (ev ∷ list) pid kind s =
    subscribe_all-procs list pid kind (subscribe_dynamic s ev pid kind)

generation-install_req :
    (req : WaitReq) (pid : ℕ) (kind : ProcKind) (g : ℕ) (s : Inner) (j : ℕ)
    → generation (install_req req pid kind g s) j ≡ generation s j
unfolding install_req
generation-install_req (WaitReq.time t) pid kind g s j = ground arith
generation-install_req (WaitReq.event ev) pid kind g s j = ground arith
generation-install_req (WaitReq.event_timeout ev t) pid kind g s j = ground arith
generation-install_req (WaitReq.or list) pid kind g s j =
    ground (arith, subscribe_all-procs list pid kind s)
generation-install_req (WaitReq.or_timeout list t) pid kind g s j =
    ground (arith, subscribe_all-procs list pid kind s)
generation-install_req (WaitReq.and list) pid kind g s j =
    ground (arith, subscribe_all-procs list pid kind s)

-- Installing a wait makes every timeout that was armed for the process before it dead: no heap entry
-- with the process's old generation is live, provided the generation counter is not at its end.
pub install_wait-dead :
    (s t : Inner) (pid : ℕ) (req : WaitReq) (p : Process) (when : SimTime) (seq : ℕ)
    → s.procs.get pid ≡ some p
    → p.wait_gen < u64_max
    → install_wait s pid req ≡ some t
    → is_live t (record { when = when; seq = seq; target = TimedTarget.wake pid p.wait_gen })
      ≡ false
unfolding install_wait is_live
install_wait-dead s t pid req p when seq found room done =
    let s' = set_proc s pid (λ q. record q { wait_gen = incr_u64 q.wait_gen }) in
    ground (arith, generation-install_req req pid p.kind (incr_u64 p.wait_gen) s' pid)
