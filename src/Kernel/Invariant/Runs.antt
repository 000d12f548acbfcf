-- ===== src/Kernel/Invariant/Runs.antt =====
-- The invariant of the kernel over the activations and the delta cycles of
-- crates/systemrs-kernel/src/sim.rs.
use systemrs.Base.{
  ℕ, zero, suc, refl, List, [], ◌∷◌, Bool, Option, none, some, arith, Bool-cases, Option-cases, inl,
  inr, true, false, not, ltb, ◌||◌,
}
use systemrs.Time.{SimTime}
use systemrs.Kernel.Process.{ProcKind}
use systemrs.Kernel.State.{Inner}
use systemrs.Kernel.Wheel.{runnable_empty, no_entry}
use systemrs.Kernel.Ctx.{perform_all}
use systemrs.Kernel.Activate.{
  Program, Run, done, panicked, out_of_fuel, or_panic, ◌>>=◌, run_process, begin_activation,
  end_method, end_thread, end_activation, has_body,
}
use systemrs.Kernel.Delta.{
  commit_and_notify, update_channels, begin_update, toggle_methods, toggle_threads,
}
use systemrs.Kernel.Sched.{drain_methods, evaluate}
use systemrs.Kernel.Invariant.{Inv, Holds}
use systemrs.Kernel.Invariant.Calls.{Untouched-Inv, perform_all-Inv, install_wait-Inv}
use systemrs.Kernel.Invariant.DeltaCycle.{notify_phase-Settled}

-- The postcondition of a run that may panic or use up its fuel.
abbrev pub Ends {ℓ} : {A : Type ℓ} → (A → Type 0) → Run A → Type 0
Ends P (done a) = P a
Ends P panicked = Unit {0}
Ends P out_of_fuel = Unit {0}

pub Ends-bind {ℓ κ} :
    {A : Type ℓ} {B : Type κ} (P : A → Type 0) (Q : B → Type 0) (r : Run A) (f : A → Run B)
    → Ends P r
    → ((a : A) → P a → Ends Q (f a))
    → Ends Q (r >>= f)
Ends-bind P Q (done a) f h k = k a h
Ends-bind P Q panicked f h k = tt
Ends-bind P Q out_of_fuel f h k = tt

pub Ends-or_panic : (P : Inner → Type 0) (o : Option Inner) → Holds P o → Ends P (or_panic o)
Ends-or_panic P none h = tt
Ends-or_panic P (some s) h = h

module _ {lo : SimTime} where
  begin_activation-Inv :
      (kind : ProcKind) (s : Inner) (pid : ℕ)
      → Inv lo s
      → Holds (Inv lo) (begin_activation kind s pid)
  unfolding begin_activation
  begin_activation-Inv kind s pid v = elim (Option-cases (s.procs.get pid)) [
    | inl h ↦ rw (h, begin_activation) tt
    | inr (p, h) ↦
        rw (h, begin_activation)
          (elim (Bool-cases (has_body kind p.body)) [
            | inl b ↦ rw b (Untouched-Inv (refl, refl, refl, refl) v)
            | inr b ↦ rw b tt
          ])
  ]

  end_method-Inv : (s : Inner) (pid : ℕ) → Inv lo s → Holds (Inv lo) (end_method s pid)
  unfolding end_method
  end_method-Inv s pid v = elim (Option-cases (s.procs.get pid)) [
    | inl h ↦ rw (h, end_method) tt
    | inr (p, h) ↦
        rw (h, end_method)
          (elim (Option-cases p.pending_wait) [
            | inl w ↦ rw w (Untouched-Inv (refl, refl, refl, refl) v)
            | inr (req, w) ↦
                rw w (install_wait-Inv pid req (Untouched-Inv (refl, refl, refl, refl) v))
          ])
  ]

  end_thread-Inv : (s : Inner) (pid : ℕ) (b : Bool) → Inv lo s → Holds (Inv lo) (end_thread s pid b)
  unfolding end_thread
  end_thread-Inv s pid true v = elim (Option-cases (s.procs.get pid)) [
    | inl h ↦ rw (h, end_thread) tt
    | inr (p, h) ↦
        rw (h, end_thread)
          (elim (Option-cases p.pending_wait) [
            | inl w ↦ rw w tt
            | inr (req, w) ↦
                rw w (install_wait-Inv pid req (Untouched-Inv (refl, refl, refl, refl) v))
          ])
  ]
  end_thread-Inv s pid false v = elim (Option-cases (s.procs.get pid)) [
    | inl h ↦ rw (h, end_thread) tt
    | inr (p, h) ↦ rw (h, end_thread) (Untouched-Inv (refl, refl, refl, refl) v)
  ]

  end_activation-Inv :
      (kind : ProcKind) (s : Inner) (pid : ℕ) (b : Bool)
      → Inv lo s
      → Holds (Inv lo) (end_activation kind s pid b)
  end_activation-Inv ProcKind.method s pid b v = end_method-Inv s pid v
  end_activation-Inv ProcKind.thread s pid b v = end_thread-Inv s pid b v

-- The invariant, of a kernel with the model's environment.
abbrev pub Good {ℓ} : {E : Type ℓ} → SimTime → Inner × E → Type 0
Good lo (s, env) = Inv lo s

-- The same after a step that says whether to go on.
abbrev pub Good' {ℓ} : {E : Type ℓ} → SimTime → Bool × (Inner × E) → Type 0
Good' lo (b, m) = Good lo m

module _ {E : Type 0} (program : Program E) (lo : SimTime) where
  run_process-Good :
      (kind : ProcKind) (pid : ℕ) (s : Inner) (env : E)
      → Inv lo s
      → Ends (Good lo) (run_process program kind pid (s, env))
  unfolding run_process
  run_process-Good kind pid s env v =
      Ends-bind (Inv lo) (Good lo) (or_panic (begin_activation kind s pid)) _
        (Ends-or_panic (Inv lo) _ (begin_activation-Inv kind s pid v))
        λ s₁ v₁.
          let a = (program.body env s₁ pid).0 in
          Ends-bind (Inv lo) (Good lo) (or_panic (perform_all a.ops s₁)) _
            (Ends-or_panic (Inv lo) _ (perform_all-Inv a.ops s₁ v₁))
            λ s₂ v₂.
              Ends-bind (Inv lo) (Good lo) (or_panic (end_activation kind s₂ pid a.suspends)) _
                (Ends-or_panic (Inv lo) _ (end_activation-Inv kind s₂ pid a.suspends v₂))
                (λ s₃ v₃. v₃)

  drain_methods-Good :
      (list : List ℕ) (s : Inner) (env : E)
      → Inv lo s
      → Ends (Good lo) (drain_methods program list (s, env))
  unfolding drain_methods
  drain_methods-Good [] s env v = v
  drain_methods-Good (pid ∷ rest) s env v =
      Ends-bind (Good lo) (Good lo)
        (run_process program ProcKind.method pid (record s { method_pop = rest }, env)) _
        (run_process-Good ProcKind.method pid _ env (Untouched-Inv (refl, refl, refl, refl) v))
        λ (s', env') v'. drain_methods-Good rest s' env' v'

  toggle_methods-Inv : (s : Inner) → Inv lo s → Inv lo (toggle_methods s)
  unfolding toggle_methods
  toggle_methods-Inv s v = Untouched-Inv (ground arith) v

  toggle_threads-Inv : (s : Inner) → Inv lo s → Inv lo (toggle_threads s)
  unfolding toggle_threads
  toggle_threads-Inv s v = Untouched-Inv (ground arith) v

  pub evaluate-Good :
      (fuel : ℕ) (ran : Bool) (s : Inner) (env : E)
      → Inv lo s
      → Ends (Good' lo) (evaluate program fuel ran (s, env))
  unfolding evaluate
  evaluate-Good zero ran s env v = tt
  evaluate-Good (suc fuel) ran s env v =
      let s₀ = toggle_methods s in
      let ran₁ = ran || not (no_entry s₀.method_pop) in
      Ends-bind (Good lo) (Good' lo) (drain_methods program s₀.method_pop (s₀, env)) _
        (drain_methods-Good s₀.method_pop s₀ env (toggle_methods-Inv s v))
        λ (s₁, env₁) v₁.
          after ran₁ (toggle_threads s₁) env₁ (toggle_threads s₁).thread_pop (evaluate-Good fuel)
            (toggle_threads-Inv s₁ v₁)
    where
      after :
          (ran₁ : Bool) (s₂ : Inner) (env₁ : E) (queue : List ℕ)
          → ((r : Bool) (t : Inner) (e : E)
              → Inv lo t
              → Ends (Good' lo) (evaluate program fuel r (t, e)))
          → Inv lo s₂
          → Ends (Good' lo) (elim queue [
            | [] ↦ elim (runnable_empty s₂) [
              | true ↦ done (ran₁, (s₂, env₁))
              | false ↦ evaluate program fuel ran₁ (s₂, env₁)
            ]
            | pid ∷ rest ↦
                run_process program ProcKind.thread pid (record s₂ { thread_pop = rest }, env₁)
                >>= evaluate program fuel true
          ])
      after ran₁ s₂ env₁ [] again v₂ = elim (Bool-cases (runnable_empty s₂)) [
        | inl h ↦ rw h v₂
        | inr h ↦ rw h (again ran₁ s₂ env₁ v₂)
      ]
      after ran₁ s₂ env₁ (pid ∷ rest) again v₂ =
          Ends-bind (Good lo) (Good' lo)
            (run_process program ProcKind.thread pid (record s₂ { thread_pop = rest }, env₁)) _
            (run_process-Good ProcKind.thread pid _ env₁
              (Untouched-Inv (refl, refl, refl, refl) v₂))
            λ (s', env') v'. again true s' env' v'

  update_channels-Good :
      (chans : List ℕ) (s : Inner) (env : E)
      → Inv lo s
      → Ends (Good lo) (update_channels program chans (s, env))
  unfolding update_channels
  update_channels-Good [] s env v = v
  update_channels-Good (chan ∷ chans) s env v = elim (Bool-cases (ltb chan s.chans)) [
    | inl h ↦
        let ops = (program.update env s chan).0 in
        rw h (
          Ends-bind (Inv lo) (Good lo) (or_panic (perform_all ops s)) _
            (Ends-or_panic (Inv lo) _ (perform_all-Inv ops s v))
            λ s' v'. update_channels-Good chans s' _ v')
    | inr h ↦ rw h (update_channels-Good chans s env v)
  ]

  pub commit_and_notify-Good :
      (s : Inner) (env : E) → Inv lo s → Ends (Good lo) (commit_and_notify program (s, env))
  unfolding commit_and_notify
  commit_and_notify-Good s env v =
      Ends-bind (Good lo) (Good lo) (update_channels program s.update_queue (begin_update s, env)) _
        (update_channels-Good s.update_queue _ env (Untouched-Inv (refl, refl, refl, refl) v))
        λ (s', env') v'. (notify_phase-Settled s' v').inv
