-- ===== src/Kernel/Invariant/Until.antt =====
-- The invariant of the kernel over `crunch` and `run_until` of crates/systemrs-kernel/src/sim.rs.
use systemrs.Base.{
  ltb→lt, ◌<◌, All-map, ℕ, zero, suc, ◌≡◌, ◌≤◌, refl, Bool, Option, none, some, All, arith,
  Bool-cases, inl, inr, true, false, not, if◌then◌else◌, ltb, ◌||◌, ◌&&◌,
}
use systemrs.Time.{SimTime, inf, is_inf}
use systemrs.Kernel.State.{Inner, Phase, GateOutcome}
use systemrs.Kernel.Notify.{has_pending_delta}
use systemrs.Kernel.Wheel.{next_timed_when, fire_timed_at, runnable_empty}
use systemrs.Kernel.Ctx.{perform_all}
use systemrs.Kernel.Activate.{Program, Run, done, panicked, out_of_fuel, or_panic, ◌>>=◌}
use systemrs.Kernel.Delta.{commit_and_notify, do_timestep, ensure_started}
use systemrs.Kernel.Sched.{
  evaluate, crunch, elaborate_once, commit_if_pending, at_idle, advance, run_loop, run_until,
  is_suspend,
}
use systemrs.Kernel.Invariant.{Inv}
use systemrs.Kernel.Invariant.Calls.{Untouched-Inv, perform_all-Inv}
use systemrs.Kernel.Invariant.Wheel.{
  next_timed_when-Inv, next_timed_when-first, fire_timed_at-Fired,
}
use systemrs.Kernel.Invariant.Runs.{
  Ends, Ends-bind, Ends-or_panic, Good, Good', evaluate-Good, commit_and_notify-Good,
}
use systemrs.Kernel.Invariant.Start.{elaborate_once-Good, ensure_started-Inv}

module _ {E : Type 0} (program : Program E) (lo : SimTime) where
  crunch-Good : (fuel : ℕ) (m : Inner × E) → Good lo m → Ends (Good lo) (crunch program fuel m)
  unfolding crunch
  crunch-Good zero m v = tt
  crunch-Good (suc fuel) (s, env) v =
      Ends-bind (Good' lo) (Good lo)
        (evaluate program fuel false (record s { phase = Phase.evaluate }, env)) _
        (evaluate-Good program lo fuel false _ env (Untouched-Inv (refl, refl, refl, refl) v))
        λ (ran, m') v'. ran_or_not ran m' v' (crunch-Good fuel)
    where
      settled :
          (s' : Inner) (env' : E)
          → Inv lo s'
          → ((m : Inner × E) → Good lo m → Ends (Good lo) (crunch program fuel m))
          → Ends (Good lo) (elim (runnable_empty s') [
            | true ↦ done (s', env')
            | false ↦ crunch program fuel (s', env')
          ])
      settled s' env' v' again = elim (Bool-cases (runnable_empty s')) [
        | inl h ↦ rw h v'
        | inr h ↦ rw h (again (s', env') v')
      ]

      ran_or_not :
          (ran : Bool) (m' : Inner × E)
          → Good lo m'
          → ((m : Inner × E) → Good lo m → Ends (Good lo) (crunch program fuel m))
          → Ends (Good lo) (elim ran [
            | false ↦ done m'
            | true ↦ commit_and_notify program m' >>= λ (s', env'). elim (runnable_empty s') [
              | true ↦ done (s', env')
              | false ↦ crunch program fuel (s', env')
            ]
          ])
      ran_or_not false m' v' again = v'
      ran_or_not true (s', env') v' again =
          Ends-bind (Good lo) (Good lo) (commit_and_notify program (s', env')) _
            (commit_and_notify-Good program lo s' env' v')
            λ (s'', env'') v''. settled s'' env'' v'' again

  commit_if_pending-Good :
      (m : Inner × E) → Good lo m → Ends (Good lo) (commit_if_pending program m)
  unfolding commit_if_pending
  commit_if_pending-Good (s, env) v = elim (Bool-cases (has_pending_delta s)) [
    | inl h ↦ rw h (commit_and_notify-Good program lo s env v)
    | inr h ↦ rw h v
  ]

  at_idle-Good :
      (end : SimTime) (m : Inner × E) → Good lo m → Ends (Good' lo) (at_idle program end m)
  unfolding at_idle
  at_idle-Good end (s, env) v =
      elim (Bool-cases (not (is_suspend s.starvation && s.gate_installed) || not (is_inf end))) [
        | inl h ↦ rw h v
        | inr h ↦
            let (outcome, ops, env') = program.gate env s in
            rw h (
              Ends-bind (Inv lo) (Good' lo) (or_panic (perform_all ops s)) _
                (Ends-or_panic (Inv lo) _ (perform_all-Inv ops s v))
                λ s' v'. asked outcome s' env' v')
      ]
    where
      asked :
          (outcome : GateOutcome) (s' : Inner) (env' : E)
          → Inv lo s'
          → Ends (Good' lo) (elim outcome [
            | GateOutcome.resume ↦ commit_if_pending program (s', env') >>= λ m. done (true, m)
            | _ ↦ done (false, (s', env'))
          ])
      asked GateOutcome.resume s' env' v' =
          Ends-bind (Good lo) (Good' lo) (commit_if_pending program (s', env')) _
            (commit_if_pending-Good (s', env') v') (λ m v''. v'')
      asked GateOutcome.exit s' env' v' = v'
      asked GateOutcome.stop s' env' v' = v'

  do_timestep-Inv :
      (s : Inner) (when : SimTime)
      → when ≤ inf
      → s.now ≤ when
      → All (λ e. when ≤ e.when) s.timed
      → Inv lo s
      → Inv lo (do_timestep s when)
  unfolding do_timestep
  do_timestep-Inv s when fits ahead first v = record {
    since = omega (arith, v.since);
    slots = record { holds = v.slots.holds; records = v.slots.records };
    bounded = v.bounded;
    sorted = v.sorted;
    ahead = first;
    fits = fits;
  }

  -- The run stops at its end: nothing left on the heap is before it.
  stop-Inv :
      (end when : SimTime) (s : Inner)
      → end ≤ inf
      → end < when
      → All (λ e. when ≤ e.when) s.timed
      → Inv lo s
      → Inv lo (record s { now = if ltb s.now end then end else s.now })
  stop-Inv end when s fits before first v = elim (Bool-cases (ltb s.now end)) [
    | inl h ↦ rw h (record {
      since = ground (arith, v.since);
      slots = record { holds = v.slots.holds; records = v.slots.records };
      bounded = v.bounded;
      sorted = v.sorted;
      ahead = All-map (λ e p. omega (arith, p)) s.timed first;
      fits = fits;
    })
    | inr h ↦ rw h (Untouched-Inv (refl, refl, refl, refl) v)
  ]

  advance-Good :
      (end : SimTime) (m : Inner × E)
      → end ≤ inf
      → Good lo m
      → Ends (Good' lo) (advance program end m)
  unfolding advance
  advance-Good end (s, env) fits v =
      next (next_timed_when s).0 (next_timed_when-first s) (next_timed_when-Inv v)
    where
      next :
          (t : Option SimTime)
          → ((when : SimTime)
              → Inv lo s
              → t ≡ some when
              → (s.now ≤ when) × All (λ e. when ≤ e.when) (next_timed_when s).1.timed)
          → Inv lo (next_timed_when s).1
          → Ends (Good' lo) (elim t [
            | none ↦ at_idle program end ((next_timed_when s).1, env)
            | some when ↦
                if ltb end when
                then done (
                  false,
                  (
                    record (next_timed_when s).1 {
                      now =
                          if ltb (next_timed_when s).1.now end
                          then end
                          else (next_timed_when s).1.now;
                    },
                    env,
                  ),
                )
                else done (true, (fire_timed_at (do_timestep (next_timed_when s).1 when) when, env))
          ])
      next none first v' = at_idle-Good end ((next_timed_when s).1, env) v'
      next (some when) first v' = elim (Bool-cases (ltb end when)) [
        | inl h ↦ rw h (
            stop-Inv end when (next_timed_when s).1 fits (ltb→lt end when h) (first when v refl).1
              v')
        | inr h ↦
            let (ahead, later) = first when v refl in
            let s' = (next_timed_when s).1 in
            rw h
              (fire_timed_at-Fired (do_timestep s' when) when (unfold do_timestep in later) (
                do_timestep-Inv s' when (ground arith) (unfold next_timed_when in ahead) later
                  v')).inv
      ]

  run_loop-Good :
      (fuel : ℕ) (end : SimTime) (m : Inner × E)
      → end ≤ inf
      → Good lo m
      → Ends (Good lo) (run_loop program fuel end m)
  unfolding run_loop
  run_loop-Good zero end m fits v = tt
  run_loop-Good (suc fuel) end m fits v =
      Ends-bind (Good lo) (Good lo) (crunch program fuel m) _ (crunch-Good fuel m v) λ m₁ v₁.
        Ends-bind (Good' lo) (Good lo) (advance program end m₁) _ (advance-Good end m₁ fits v₁)
          λ (more, m₂) v₂. go more m₂ v₂ (run_loop-Good fuel end)
    where
      go :
          (more : Bool) (m₂ : Inner × E)
          → Good lo m₂
          → ((m : Inner × E) → end ≤ inf → Good lo m → Ends (Good lo) (run_loop program fuel end m))
          → Ends (Good lo) (elim more [ true ↦ run_loop program fuel end m₂ | false ↦ done m₂ ])
      go true m₂ v₂ again = again m₂ fits v₂
      go false m₂ v₂ again = v₂

  run_until-Good :
      (fuel : ℕ) (end : SimTime) (m : Inner × E)
      → end ≤ inf
      → Good lo m
      → Ends (Good lo) (run_until program fuel end m)
  unfolding run_until
  run_until-Good fuel end m fits v =
      Ends-bind (Good lo) (Good lo) (elaborate_once program m) _
        (elaborate_once-Good program lo m v)
        λ (s, env) v₁.
          Ends-bind (Inv lo) (Good lo) (or_panic (ensure_started s)) _
            (Ends-or_panic (Inv lo) _ (ensure_started-Inv program lo s v₁))
            λ s₁ v₂.
              Ends-bind (Good lo) (Good lo) (commit_if_pending program (s₁, env)) _
                (commit_if_pending-Good (s₁, env) v₂) λ m₂ v₃. run_loop-Good fuel end m₂ fits v₃

Ends-map {ℓ} :
    {A : Type ℓ} (P Q : A → Type 0) (r : Run A) → ((a : A) → P a → Q a) → Ends P r → Ends Q r
Ends-map P Q (done a) f h = f a h
Ends-map P Q panicked f h = tt
Ends-map P Q out_of_fuel f h = tt

-- For every model, a run of the kernel up to an end that fits a `u64`, from a state that satisfies the
-- invariant, leaves a state that satisfies it, and has not turned the clock back: whatever calls the
-- process bodies, the channel updates, the elaboration hook and the starvation gate make, and for
-- any fuel. The statement is about the states that a run leaves: a run that panics, or uses up its fuel, leaves none.
pub run_until-Inv :
    {E : Type 0} (program : Program E) (fuel : ℕ) (end : SimTime) (s : Inner) (env : E)
    → end ≤ inf
    → Inv s.now s
    → Ends
        (λ (m : Inner × E). Inv s.now m.0 × (s.now ≤ m.0.now))
        (run_until program fuel end (s, env))
run_until-Inv program fuel end s env fits v =
    Ends-map (Good s.now) _ (run_until program fuel end (s, env)) (λ (t, env') w. (w, w.since))
      (run_until-Good program s.now fuel end (s, env) fits v)
