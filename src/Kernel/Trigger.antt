-- ===== src/Kernel/Trigger.antt =====
-- Making processes runnable: `trigger` with the four subscriber lists in their order, the dynamic
-- subscriptions, `wake_process` and `make_runnable`, of crates/systemrs-kernel/src/inner.rs.
pub mod Frame
pub mod Order
pub mod Ready
pub mod Fifo
use systemrs.Base.{
  ℕ, zero, suc, ◌+◌, List, [], ◌∷◌, ◌++◌, Bool, Option, none, some, true, false, length, get_elem?,
  swap_remove, reverse, if◌then◌else◌, ltb, ◌==◌, incr_u64, ◌||◌, not,
}
use systemrs.Kernel.Event.{Event}
use systemrs.Kernel.Process.{Process, ProcKind, WaitState, in_dynamic_wait}
use systemrs.Kernel.State.{Inner, event_at, set_event, set_proc}

abbrev pub is_running : Inner → ℕ → Bool
is_running s pid = elim s.running [ none ↦ false | some r ↦ r == pid ]

-- `push_back` on the queue of the process's kind
abbrev pub enqueue : ProcKind → ℕ → Inner → Inner
enqueue ProcKind.method pid s = record s { method_push = s.method_push ++ pid ∷ [] }
enqueue ProcKind.thread pid s = record s { thread_push = s.thread_push ++ pid ∷ [] }

unfoldable pub make_runnable : Inner → ℕ → Inner
make_runnable s pid = if is_running s pid then s else elim (s.procs.get pid) [
  | none ↦ s
  | some p ↦
      if p.dead || p.queued
      then s
      else enqueue p.kind pid (set_proc s pid (λ q. record q { queued = true }))
]

unfoldable pub wake_process : Inner → ℕ → Inner
unfolding make_runnable
wake_process s pid =
    make_runnable
      (set_proc s pid (λ p. record p { wait_gen = incr_u64 p.wait_gen; wait = WaitState.static }))
      pid

unfoldable pub make_runnable_static : Inner → ℕ → Inner
unfolding make_runnable in_dynamic_wait
make_runnable_static s pid = elim (s.procs.get pid) [
  | none ↦ s
  | some p ↦ if p.dead || in_dynamic_wait p then s else make_runnable s pid
]

-- `list.contains(&ev)`
contains : ℕ → List ℕ → Bool
contains ev [] = false
contains ev (x ∷ xs) = x == ev || contains ev xs

-- `remaining.remove(pos)` at the first position of `ev`
unfoldable pub remove_first : ℕ → List ℕ → List ℕ
remove_first ev [] = []
remove_first ev (x ∷ xs) = let rest = remove_first ev xs in if x == ev then xs else x ∷ rest

abbrev is_empty : List ℕ → Bool
is_empty [] = true
is_empty (x ∷ xs) = false

-- The `match &mut p.wait`: whether the process wakes, and the wait state that the match leaves.
unfoldable pub resolve_wait : ℕ → WaitState → Bool × WaitState
unfolding contains remove_first
resolve_wait ev (WaitState.event e) = (e == ev, WaitState.event e)
resolve_wait ev (WaitState.or list) = (contains ev list, WaitState.or list)
resolve_wait ev (WaitState.and remaining) =
    if contains ev remaining
    then (is_empty (remove_first ev remaining), WaitState.and (remove_first ev remaining))
    else (false, WaitState.and remaining)
resolve_wait ev WaitState.static = (false, WaitState.static)
resolve_wait ev WaitState.timed = (false, WaitState.timed)

-- The result says whether the subscription is consumed.
unfoldable pub trigger_dynamic : Inner → ℕ → ℕ → Bool × Inner
unfolding wake_process resolve_wait
trigger_dynamic s pid ev = elim (s.procs.get pid) [
  | none ↦ (true, s)
  | some p ↦
      if p.dead
      then (true, s)
      else (let (wake, w) = resolve_wait ev p.wait in
          let s' = set_proc s pid (λ q. record q { wait = w }) in
          (true, if wake then wake_process s' pid else s'))
]

-- The loop over a dynamic list, from index `i`: a consumed entry is overwritten by the last one and
-- the index is looked at again. The fuel is the number of entries not yet looked at.
unfoldable pub dynamic_loop : ℕ → ℕ → ℕ → List ℕ → Inner → List ℕ × Inner
dynamic_loop zero ev i list s = (list, s)
dynamic_loop (suc fuel) ev i list s = elim (get_elem? list i) [
  | none ↦ (list, s)
  | some pid ↦
      let (consumed, s') = trigger_dynamic s pid ev in
      elim consumed [
        | true ↦ dynamic_loop fuel ev i (swap_remove list i) s'
        | false ↦ dynamic_loop fuel ev (suc i) list s'
      ]
]

abbrev pub dynamic_list : ProcKind → Event → List ℕ
dynamic_list ProcKind.method e = e.dynamic_methods
dynamic_list ProcKind.thread e = e.dynamic_threads

abbrev pub set_dynamic : ProcKind → List ℕ → Event → Event
set_dynamic ProcKind.method list e = record e { dynamic_methods = list }
set_dynamic ProcKind.thread list e = record e { dynamic_threads = list }

unfoldable pub fire_dynamic : Inner → ℕ → ProcKind → Inner
fire_dynamic s ev kind =
    let list = dynamic_list kind (event_at s ev) in
    let (rest, s') = dynamic_loop (length list) ev 0 list (set_event s ev (set_dynamic kind [])) in
    set_event s' ev (set_dynamic kind rest)

-- A static list is walked from its end; it is taken out for the walk and put back as it was.
unfoldable pub fire_static : List ℕ → Inner → Inner
fire_static [] s = s
fire_static (pid ∷ below) s = fire_static below (make_runnable_static s pid)

unfoldable pub trigger : Inner → ℕ → Inner
trigger s ev =
    let s₀ = set_event s ev (λ e. record e { trigger_stamp = s.change_stamp }) in
    let s₁ = fire_static (reverse (event_at s₀ ev).static_methods) s₀ in
    let s₂ = fire_dynamic s₁ ev ProcKind.method in
    let s₃ = fire_static (reverse (event_at s₂ ev).static_threads) s₂ in
    fire_dynamic s₃ ev ProcKind.thread
