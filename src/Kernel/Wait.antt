-- ===== src/Kernel/Wait.antt =====
-- Sensitivity: `subscribe_dynamic`, `schedule_proc_wake` and `install_wait` of
-- crates/systemrs-kernel/src/inner.rs.
pub mod Timeouts
pub mod ZeroTimeout
use systemrs.Base.{
  ℕ, List, [], ◌∷◌, ◌++◌, Bool, true, false, Option, none, some, if◌then◌else◌, incr_u64,
}
use systemrs.Time.{SimTime, add, is_zero}
use systemrs.Kernel.Process.{ProcKind, WaitReq, WaitState}
use systemrs.Kernel.State.{Inner, TimedTarget, set_event, set_proc}
use systemrs.Kernel.Notify.{heap_push}
use systemrs.Kernel.Trigger.{dynamic_list, set_dynamic}

unfoldable pub subscribe_dynamic : Inner → ℕ → ℕ → ProcKind → Inner
subscribe_dynamic s ev pid kind =
    set_event s ev (λ e. set_dynamic kind (dynamic_list kind e ++ pid ∷ []) e)

unfoldable pub subscribe_all : List ℕ → ℕ → ProcKind → Inner → Inner
unfolding subscribe_dynamic
subscribe_all [] pid kind s = s
subscribe_all (ev ∷ list) pid kind s = subscribe_all list pid kind (subscribe_dynamic s ev pid kind)

unfoldable pub schedule_proc_wake : Inner → ℕ → ℕ → SimTime → Inner
unfolding heap_push
schedule_proc_wake s pid generation when = record s {
  seq = incr_u64 s.seq;
  timed =
      heap_push (record { when = when; seq = s.seq; target = TimedTarget.wake pid generation })
        s.timed;
}

abbrev pub set_wait : WaitState → ℕ → Inner → Inner
set_wait w pid s = set_proc s pid (λ p. record p { wait = w })

-- The `match req`, for a process of the kind at the new generation.
unfoldable pub install_req : WaitReq → ℕ → ProcKind → ℕ → Inner → Inner
unfolding subscribe_dynamic subscribe_all schedule_proc_wake
install_req (WaitReq.time t) pid kind generation s =
    let s' = set_wait WaitState.timed pid s in
    if is_zero t
    then record s' { delta_wakes = s'.delta_wakes ++ (pid, generation) ∷ [] }
    else schedule_proc_wake s' pid generation (add s'.now t)
install_req (WaitReq.event ev) pid kind generation s =
    subscribe_dynamic (set_wait (WaitState.event ev) pid s) ev pid kind
install_req (WaitReq.event_timeout ev t) pid kind generation s =
    let s' = subscribe_dynamic (set_wait (WaitState.event ev) pid s) ev pid kind in
    schedule_proc_wake s' pid generation (add s'.now t)
install_req (WaitReq.or list) pid kind generation s =
    set_wait (WaitState.or list) pid (subscribe_all list pid kind s)
install_req (WaitReq.or_timeout list t) pid kind generation s =
    let s' = set_wait (WaitState.or list) pid (subscribe_all list pid kind s) in
    schedule_proc_wake s' pid generation (add s'.now t)
install_req (WaitReq.and list) pid kind generation s =
    set_wait (WaitState.and list) pid (subscribe_all list pid kind s)

-- The events that a request indexes.
abbrev pub req_events : WaitReq → List ℕ
req_events (WaitReq.time t) = []
req_events (WaitReq.event ev) = ev ∷ []
req_events (WaitReq.event_timeout ev t) = ev ∷ []
req_events (WaitReq.or list) = list
req_events (WaitReq.or_timeout list t) = list
req_events (WaitReq.and list) = list

pub known : Inner → List ℕ → Bool
known s [] = true
known s (ev ∷ list) = elim (s.events.get ev) [ none ↦ false | some e ↦ known s list ]

-- Indexing by an id that was not handed out, `self.procs[pid]` or `self.events[ev]`, panics.
unfoldable pub install_wait : Inner → ℕ → WaitReq → Option Inner
unfolding install_req known
install_wait s pid req = elim (s.procs.get pid) [
  | none ↦ none
  | some p ↦
      if known s (req_events req)
      then some (
          install_req req pid p.kind (incr_u64 p.wait_gen)
            (set_proc s pid (λ q. record q { wait_gen = incr_u64 q.wait_gen })))
      else none
]
