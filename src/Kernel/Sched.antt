-- ===== src/Kernel/Sched.antt =====
-- The driver of crates/systemrs-kernel/src/sim.rs: the evaluate batches and the delta cycles of
-- `crunch`, the elaboration barrier and `run_until`. A run is on fuel, since a model may loop in delta
-- cycles for ever.
use systemrs.Base.{
  ℕ, zero, suc, List, [], ◌∷◌, Bool, none, some, true, false, not, ltb, if◌then◌else◌, ◌||◌, ◌&&◌,
}
use systemrs.Time.{SimTime, is_inf}
use systemrs.Kernel.Process.{ProcKind}
use systemrs.Kernel.State.{Inner, Phase, Starvation, GateOutcome}
use systemrs.Kernel.Notify.{has_pending_delta}
use systemrs.Kernel.Wheel.{next_timed_when, fire_timed_at, runnable_empty, no_entry}
use systemrs.Kernel.Ctx.{perform_all}
use systemrs.Kernel.Activate.{Program, Run, done, out_of_fuel, or_panic, ◌>>=◌, run_process}
use systemrs.Kernel.Delta.{
  commit_and_notify, do_timestep, ensure_started, toggle_methods, toggle_threads,
}

abbrev pub is_build : Phase → Bool
is_build Phase.build = true
is_build _ = false

abbrev pub is_suspend : Starvation → Bool
is_suspend Starvation.suspend_on_starvation = true
is_suspend _ = false

module _ {E : Type 0} (program : Program E) where
  -- `while let Some(pid) = self.pop_method()`, over what is in the queue.
  unfoldable pub drain_methods : List ℕ → Inner × E → Run (Inner × E)
  drain_methods [] m = done m
  drain_methods (pid ∷ rest) (s, env) =
      run_process program ProcKind.method pid (record s { method_pop = rest }, env)
      >>= drain_methods rest

  -- The inner loop of `crunch`; the result says whether a process ran.
  unfoldable pub evaluate : ℕ → Bool → Inner × E → Run (Bool × (Inner × E))
  evaluate zero ran m = out_of_fuel
  evaluate (suc fuel) ran (s, env) = do
    let s₀ = toggle_methods s
    (s₁, env₁) ← drain_methods s₀.method_pop (s₀, env)
    let ran₁ = ran || not (no_entry s₀.method_pop)
    let s₂ = toggle_threads s₁
    elim s₂.thread_pop [
      | [] ↦ elim (runnable_empty s₂) [
        | true ↦ done (ran₁, (s₂, env₁))
        | false ↦ evaluate fuel ran₁ (s₂, env₁)
      ]
      | pid ∷ rest ↦
          run_process program ProcKind.thread pid (record s₂ { thread_pop = rest }, env₁)
          >>= evaluate fuel true
    ]

  unfoldable pub crunch : ℕ → Inner × E → Run (Inner × E)
  unfolding evaluate
  crunch zero m = out_of_fuel
  crunch (suc fuel) (s, env) = do
    (ran, m) ← evaluate fuel false (record s { phase = Phase.evaluate }, env)
    elim ran [
      | false ↦ done m
      | true ↦ do
        (s', env') ← commit_and_notify program m
        elim (runnable_empty s') [ true ↦ done (s', env') | false ↦ crunch fuel (s', env') ]
    ]

  -- `run_initial_commit`
  unfoldable pub initial_commit : Inner × E → Run (Inner × E)
  initial_commit (s, env) = elim s.update_queue [
    | [] ↦ done (s, env)
    | _ ∷ _ ↦ commit_and_notify program (s, env)
  ]

  unfoldable pub run_elaboration : Inner × E → Run (Inner × E)
  unfolding initial_commit
  run_elaboration (s, env) = do
    let (result, env₁) = program.elaborate env s
    ops ← or_panic result
    s₁ ← or_panic (perform_all ops s)
    (s₂, env₂) ← initial_commit (s₁, env₁)
    done (
      record s₂ {
        elaborated = true;
        phase = if is_build s₂.phase then Phase.evaluate else s₂.phase;
      },
      env₂,
    )

  unfoldable pub elaborate_once : Inner × E → Run (Inner × E)
  unfolding run_elaboration
  elaborate_once (s, env) =
      if is_build s.phase && not s.elaborated then run_elaboration (s, env) else done (s, env)

  -- `if self.inner.borrow().has_pending_delta() { self.commit_and_notify(); }`
  unfoldable pub commit_if_pending : Inner × E → Run (Inner × E)
  commit_if_pending (s, env) =
      if has_pending_delta s then commit_and_notify program (s, env) else done (s, env)

  -- The idle point: the gate is asked, if there is one and the run has no end. The result says
  -- whether the loop goes on.
  unfoldable pub at_idle : SimTime → Inner × E → Run (Bool × (Inner × E))
  unfolding commit_if_pending
  at_idle end (s, env) =
      if not (is_suspend s.starvation && s.gate_installed) || not (is_inf end)
      then done (false, (s, env))
      else (do
        let (outcome, ops, env') = program.gate env s
        s' ← or_panic (perform_all ops s)
        elim outcome [
          | GateOutcome.resume ↦ do m ← commit_if_pending (s', env'); done (true, m)
          | _ ↦ done (false, (s', env'))
        ])

  -- One round of the loop of `run_until`, after `crunch`.
  unfoldable pub advance : SimTime → Inner × E → Run (Bool × (Inner × E))
  unfolding at_idle
  advance end (s, env) =
      let (next, s') = next_timed_when s in
      elim next [
        | none ↦ at_idle end (s', env)
        | some when ↦
            if ltb end when
            then done (false, (record s' { now = if ltb s'.now end then end else s'.now }, env))
            else done (true, (fire_timed_at (do_timestep s' when) when, env))
      ]

  unfoldable pub run_loop : ℕ → SimTime → Inner × E → Run (Inner × E)
  unfolding crunch advance
  run_loop zero end m = out_of_fuel
  run_loop (suc fuel) end m = do
    m₁ ← crunch fuel m
    (more, m₂) ← advance end m₁
    elim more [ true ↦ run_loop fuel end m₂ | false ↦ done m₂ ]

  unfoldable pub run_until : ℕ → SimTime → Inner × E → Run (Inner × E)
  unfolding elaborate_once commit_if_pending run_loop
  run_until fuel end m = do
    (s, env) ← elaborate_once m
    s₁ ← or_panic (ensure_started s)
    m₂ ← commit_if_pending (s₁, env)
    run_loop fuel end m₂
