-- ===== src/Kernel/Delta/Wakes.antt =====
-- The delivery of the delta wakes in crates/systemrs-kernel/src/sim.rs.
use mathlib.Core.List.{append-nil, append_assoc}
use systemrs.Base.{
  ℕ, ◌≡◌, ◌≢◌, refl, sym, ap, subst, ◌∙◌, List, [], ◌∷◌, ◌++◌, All, All-weaken, some, true, false,
  ◌||◌, ◌==◌, ==→eq, if◌then◌else◌, arith, Bool-cases, Option-cases, inl, inr,
}
use systemrs.Kernel.Process.{Process, ProcKind}
use systemrs.Kernel.State.{Inner}
use systemrs.Kernel.Trigger.{make_runnable, is_running, enqueue}
use systemrs.Kernel.Trigger.Frame.{make_runnable-Keeps}
use systemrs.Kernel.Wheel.{still_waits}
use systemrs.Kernel.Delta.{wake_deltas}

-- A process that is marked as queued, and one that waits in a generation.
abbrev pub IsQueued : Inner → ℕ → Type 0
IsQueued s pid = (p : Process) × (s.procs.get pid ≡ some p) × (p.queued ≡ true)

abbrev pub Waits : Inner → ℕ → ℕ → Type 0
Waits s pid generation =
    (p : Process) × (s.procs.get pid ≡ some p) × (p.dead ≡ false) × (p.wait_gen ≡ generation)

make_runnable-IsQueued : (s : Inner) (pid q : ℕ) → IsQueued s q → IsQueued (make_runnable s pid) q
unfolding make_runnable
make_runnable-IsQueued s pid q (p, found, on) = elim (Bool-cases (pid == q)) [
  | inl hit ↦ (p, ground (arith, hit, found, on), on)
  | inr miss ↦ (p, ground (arith, miss, found), on)
]

-- A process that can be queued, and one that is queued already.
make_runnable-set :
    (s : Inner) (pid : ℕ) (p : Process)
    → s.procs.get pid ≡ some p
    → is_running s pid ≡ false
    → p.dead ≡ false
    → p.queued ≡ false
    → (make_runnable s pid).procs.get pid ≡ some (record p { queued = true })
unfolding make_runnable
make_runnable-set s pid p found run alive off = ground (arith, found, run, alive, off)

make_runnable-same :
    (s : Inner) (pid : ℕ) (p : Process)
    → s.procs.get pid ≡ some p
    → p.queued ≡ true
    → (make_runnable s pid).procs.get pid ≡ some p
unfolding make_runnable
make_runnable-same s pid p found on = ground (arith, found, on)

make_runnable-Waits_self :
    (s : Inner) (pid g : ℕ) → Waits s pid g → Waits (make_runnable s pid) pid g
unfolding make_runnable
make_runnable-Waits_self s pid g (p, found, alive, same) = elim (Bool-cases (is_running s pid)) [
  | inl run ↦ (p, ground (arith, run, found), alive, same)
  | inr run ↦ elim (Bool-cases p.queued) [
    | inl on ↦ (p, make_runnable-same s pid p found on, alive, same)
    | inr off ↦
        (record p { queued = true }, make_runnable-set s pid p found run alive off, alive, same)
  ]
]

make_runnable-Waits : (s : Inner) (pid q g : ℕ) → Waits s q g → Waits (make_runnable s pid) q g
unfolding make_runnable
make_runnable-Waits s pid q g w = elim (Bool-cases (pid == q)) [
  | inl hit ↦
      subst (λ x. Waits (make_runnable s x) q g) (sym (==→eq pid q hit))
        (make_runnable-Waits_self s q g w)
  | inr miss ↦ let (p, found, alive, same) = w in (p, ground (arith, miss, found), alive, same)
]

make_runnable-queues :
    (s : Inner) (pid g : ℕ)
    → Waits s pid g
    → s.running ≢ some pid
    → IsQueued (make_runnable s pid) pid
make_runnable-queues s pid g (p, found, alive, same) idle =
    let still : is_running s pid ≡ false = ground (arith, idle) in
    elim (Bool-cases p.queued) [
      | inl on ↦ (p, make_runnable-same s pid p found on, on)
      | inr off ↦
          (record p { queued = true }, make_runnable-set s pid p found still alive off, refl)
    ]

make_runnable-other :
    (s : Inner) (pid q : ℕ) → pid ≢ q → (make_runnable s pid).procs.get q ≡ s.procs.get q
unfolding make_runnable
make_runnable-other s pid q h = ground (arith, h)

-- The queues being filled grow at their ends.
abbrev pub Grows : Inner → Inner → Type 0
Grows s t =
    ((xs : List ℕ) × (t.method_push ≡ s.method_push ++ xs))
    × ((xs : List ℕ) × (t.thread_push ≡ s.thread_push ++ xs))

Grows-refl : (s : Inner) → Grows s s
Grows-refl s = (([], sym (append-nil _)), ([], sym (append-nil _)))

Grows-trans : (s t u : Inner) → Grows s t → Grows t u → Grows s u
Grows-trans s t u ((a, e), (b, f)) ((c, g), (d, h)) = (
  (a ++ c, g ∙ ap (λ l. l ++ c) e ∙ append_assoc _ a c),
  (b ++ d, h ∙ ap (λ l. l ++ d) f ∙ append_assoc _ b d),
)

enqueue-Grows : (kind : ProcKind) (pid : ℕ) (s : Inner) → Grows s (enqueue kind pid s)
enqueue-Grows ProcKind.method pid s = ((pid ∷ [], refl), ([], sym (append-nil _)))
enqueue-Grows ProcKind.thread pid s = (([], sym (append-nil _)), (pid ∷ [], refl))

make_runnable-Grows : (s : Inner) (pid : ℕ) → Grows s (make_runnable s pid)
unfolding make_runnable
make_runnable-Grows s pid = elim (Bool-cases (is_running s pid)) [
  | inl run ↦ rw (run, make_runnable) (Grows-refl s)
  | inr run ↦ elim (Option-cases (s.procs.get pid)) [
    | inl h ↦ rw (run, h, make_runnable) (Grows-refl s)
    | inr (p, h) ↦ elim (Bool-cases (p.dead || p.queued)) [
      | inl b ↦ rw (run, h, b, make_runnable) (Grows-refl s)
      | inr b ↦ rw (run, h, b, make_runnable) (enqueue-Grows p.kind pid _)
    ]
  ]
]

-- One wake.
abbrev wake : ℕ → ℕ → Inner → Inner
wake pid g s = if still_waits g (s.procs.get pid) then make_runnable s pid else s

wake-rule :
    (P : Inner → Type 0) (pid g : ℕ) (s : Inner)
    → (still_waits g (s.procs.get pid) ≡ true → P (make_runnable s pid))
    → P s
    → P (wake pid g s)
wake-rule P pid g s live stale = elim (Bool-cases (still_waits g (s.procs.get pid))) [
  | inl h ↦ subst (λ b. P (if b then make_runnable s pid else s)) (sym h) (live h)
  | inr h ↦ subst (λ b. P (if b then make_runnable s pid else s)) (sym h) stale
]

wake-Grows : (pid g : ℕ) (s : Inner) → Grows s (wake pid g s)
wake-Grows pid g s = wake-rule (Grows s) pid g s (λ _. make_runnable-Grows s pid) (Grows-refl s)

wake-running : (pid g : ℕ) (s : Inner) → (wake pid g s).running ≡ s.running
wake-running pid g s =
    wake-rule (λ t. t.running ≡ s.running) pid g s (λ _. (make_runnable-Keeps s pid).running) refl

wake-IsQueued : (pid g q : ℕ) (s : Inner) → IsQueued s q → IsQueued (wake pid g s) q
wake-IsQueued pid g q s h =
    wake-rule (λ t. IsQueued t q) pid g s (λ _. make_runnable-IsQueued s pid q h) h

wake-Waits : (pid g q n : ℕ) (s : Inner) → Waits s q n → Waits (wake pid g s) q n
wake-Waits pid g q n s h =
    wake-rule (λ t. Waits t q n) pid g s (λ _. make_runnable-Waits s pid q n h) h

pub wake_deltas-Grows : (wakes : List (ℕ × ℕ)) (s : Inner) → Grows s (wake_deltas wakes s)
unfolding wake_deltas
wake_deltas-Grows [] s = Grows-refl s
wake_deltas-Grows ((pid, g) ∷ wakes) s =
    Grows-trans s (wake pid g s) (wake_deltas wakes (wake pid g s)) (wake-Grows pid g s)
      (wake_deltas-Grows wakes (wake pid g s))

wake_deltas-IsQueued :
    (wakes : List (ℕ × ℕ)) (s : Inner) (q : ℕ) → IsQueued s q → IsQueued (wake_deltas wakes s) q
unfolding wake_deltas
wake_deltas-IsQueued [] s q h = h
wake_deltas-IsQueued ((pid, g) ∷ wakes) s q h =
    wake_deltas-IsQueued wakes (wake pid g s) q (wake-IsQueued pid g q s h)

-- A wake whose process still waits for it, when that process does not run, puts it into its queue.
abbrev pub Woken : Inner → Inner → ℕ × ℕ → Type 0
Woken s t (pid, g) = Waits s pid g → s.running ≢ some pid → IsQueued t pid

pub wake_deltas-Woken :
    (wakes : List (ℕ × ℕ)) (s : Inner) → All (Woken s (wake_deltas wakes s)) wakes
unfolding wake_deltas
wake_deltas-Woken [] s = tt
wake_deltas-Woken ((pid, g) ∷ wakes) s = (
  λ w idle.
      let (p, found, alive, same) = w in
      let live : still_waits g (s.procs.get pid) ≡ true = ground (arith, found, alive, same) in
      wake_deltas-IsQueued wakes (wake pid g s) pid (rw live (make_runnable-queues s pid g w idle)),
  All-weaken (Woken (wake pid g s) (wake_deltas wakes (wake pid g s)))
      (Woken s (wake_deltas wakes (wake pid g s)))
      (λ (q, n) h w idle. h (wake-Waits pid g q n s w) (λ e. idle (sym (wake-running pid g s) ∙ e)))
      wakes (wake_deltas-Woken wakes (wake pid g s)),
)

-- No wake of the list is one that a process still waits for.
abbrev pub Unnamed : Inner → ℕ → ℕ × ℕ → Type 0
Unnamed s q (pid, g) = pid ≡ q → ¬ Waits s q g

still_waits-Waits : (s : Inner) (q g : ℕ) → still_waits g (s.procs.get q) ≡ true → Waits s q g
still_waits-Waits s q g h = elim (Option-cases (s.procs.get q)) [
  | inl e ↦ absurd (ground (arith, h, e))
  | inr (p, e) ↦ (p, e, ground (arith, h, e), ground (arith, h, e))
]

wake-Unnamed :
    (pid g q : ℕ) (s : Inner) → Unnamed s q (pid, g) → (wake pid g s).procs.get q ≡ s.procs.get q
wake-Unnamed pid g q s u =
    wake-rule (λ t. t.procs.get q ≡ s.procs.get q) pid g s
      (λ h. make_runnable-other s pid q (λ e.
        u e (still_waits-Waits s q g (subst (λ x. still_waits g (s.procs.get x) ≡ true) e h))))
      refl

pub wake_deltas-Unnamed :
    (wakes : List (ℕ × ℕ)) (s : Inner) (q : ℕ)
    → All (Unnamed s q) wakes
    → (wake_deltas wakes s).procs.get q ≡ s.procs.get q
unfolding wake_deltas
wake_deltas-Unnamed [] s q h = refl
wake_deltas-Unnamed ((pid, g) ∷ wakes) s q (u, h) =
    let same = wake-Unnamed pid g q s u in
    wake_deltas-Unnamed wakes (wake pid g s) q (
      All-weaken (Unnamed s q) (Unnamed (wake pid g s) q)
        (λ (k, n) v e (p, found, alive, gen). v e (p, sym same ∙ found, alive, gen)) wakes h)
    ∙ same

-- From a state `s` whose notifications have been triggered, the wakes of `wakes` lead to `t`.
pub record Wakes (wakes : List (ℕ × ℕ)) (s t : Inner) : Type 0 where
  pub woken : All (Woken s t) wakes
  pub others : (q : ℕ) → All (Unnamed s q) wakes → t.procs.get q ≡ s.procs.get q
  pub queues : Grows s t

make_runnable-events : (s : Inner) (pid : ℕ) → (make_runnable s pid).events ≡ s.events
unfolding make_runnable
make_runnable-events s pid = ground arith

pub wake_deltas-events :
    (wakes : List (ℕ × ℕ)) (s : Inner) → (wake_deltas wakes s).events ≡ s.events
unfolding wake_deltas
wake_deltas-events [] s = refl
wake_deltas-events ((pid, g) ∷ wakes) s =
    wake_deltas-events wakes (wake pid g s)
    ∙ wake-rule (λ t. t.events ≡ s.events) pid g s (λ _. make_runnable-events s pid) refl
