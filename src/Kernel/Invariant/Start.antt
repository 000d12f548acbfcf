-- ===== src/Kernel/Invariant/Start.antt =====
-- The invariant of the kernel over the elaboration and the start of a run, of
-- crates/systemrs-kernel/src/sim.rs.
use systemrs.Base.{
  ℕ, refl, List, [], ◌∷◌, Bool, Option, none, some, Bool-cases, inl, inr, true, false, not,
  if◌then◌else◌, ◌&&◌,
}
use systemrs.Time.{SimTime}
use systemrs.Kernel.Process.{Process, ProcKind}
use systemrs.Kernel.State.{Inner, set_proc}
use systemrs.Kernel.Trigger.{enqueue}
use systemrs.Kernel.Ctx.{Op, perform_all}
use systemrs.Kernel.Activate.{Program, done, or_panic}
use systemrs.Kernel.Delta.{commit_and_notify, ensure_started, queue_initial}
use systemrs.Kernel.Sched.{elaborate_once, initial_commit, run_elaboration, is_build}
use systemrs.Kernel.Invariant.{Inv, Holds}
use systemrs.Kernel.Invariant.Calls.{Untouched-Inv, perform_all-Inv}
use systemrs.Kernel.Invariant.Runs.{Ends, Ends-bind, Ends-or_panic, Good, commit_and_notify-Good}

module _ {E : Type 0} (program : Program E) (lo : SimTime) where
  initial_commit-Good : (m : Inner × E) → Good lo m → Ends (Good lo) (initial_commit program m)
  unfolding initial_commit
  initial_commit-Good (s, env) v = go s.update_queue
    where
      go :
          (queue : List ℕ)
          → Ends
              (Good lo)
              (elim queue [ [] ↦ done (s, env) | _ ∷ _ ↦ commit_and_notify program (s, env) ])
      go [] = v
      go (_ ∷ _) = commit_and_notify-Good program lo s env v

  Ends-ops : (o : Option (List Op)) → Ends (λ (ops : List Op). Unit {0}) (or_panic o)
  Ends-ops none = tt
  Ends-ops (some ops) = tt

  pub elaborate_once-Good : (m : Inner × E) → Good lo m → Ends (Good lo) (elaborate_once program m)
  unfolding elaborate_once run_elaboration
  elaborate_once-Good (s, env) v = elim (Bool-cases (is_build s.phase && not s.elaborated)) [
    | inl h ↦
        let (result, env₁) = program.elaborate env s in
        rw h (
          Ends-bind (λ (ops : List Op). Unit {0}) (Good lo) (or_panic result) _ (Ends-ops result)
            λ ops _.
              Ends-bind (Inv lo) (Good lo) (or_panic (perform_all ops s)) _
                (Ends-or_panic (Inv lo) _ (perform_all-Inv ops s v))
                λ s₁ v₁.
                  Ends-bind (Good lo) (Good lo) (initial_commit program (s₁, env₁)) _
                    (initial_commit-Good (s₁, env₁) v₁)
                    λ (s₂, env₂) v₂. Untouched-Inv (refl, refl, refl, refl) v₂)
    | inr h ↦ rw h v
  ]

  enqueue-Inv : (kind : ProcKind) (pid : ℕ) (s : Inner) → Inv lo s → Inv lo (enqueue kind pid s)
  enqueue-Inv ProcKind.method pid s v = Untouched-Inv (refl, refl, refl, refl) v
  enqueue-Inv ProcKind.thread pid s v = Untouched-Inv (refl, refl, refl, refl) v

  queue_initial-Inv : (pids : List ℕ) (s : Inner) → Inv lo s → Holds (Inv lo) (queue_initial pids s)
  queue_initial-Inv [] s v = v
  queue_initial-Inv (pid ∷ pids) s v = go (s.procs.get pid) (queue_initial-Inv pids)
    where
      go :
          (o : Option Process)
          → ((t : Inner) → Inv lo t → Holds (Inv lo) (queue_initial pids t))
          → Holds (Inv lo) (elim o [
            | none ↦ none
            | some p ↦
                queue_initial pids
                  (enqueue p.kind pid (set_proc s pid (λ q. record q { queued = true })))
          ])
      go none again = tt
      go (some p) again =
          again (enqueue p.kind pid (set_proc s pid (λ q. record q { queued = true })))
            (enqueue-Inv p.kind pid _ (Untouched-Inv (refl, refl, refl, refl) v))

  pub ensure_started-Inv : (s : Inner) → Inv lo s → Holds (Inv lo) (ensure_started s)
  unfolding ensure_started
  ensure_started-Inv s v = go s.started
    where
      go :
          (b : Bool)
          → Holds (Inv lo) (
              if b
              then some s
              else queue_initial s.initial_procs (record s { started = true; initial_procs = [] }))
      go true = v
      go false = queue_initial-Inv s.initial_procs _ (Untouched-Inv (refl, refl, refl, refl) v)
