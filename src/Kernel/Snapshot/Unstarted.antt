-- ===== src/Kernel/Snapshot/Unstarted.antt =====
-- Snapshots of a kernel that has not started:
-- crates/systemrs-kernel/src/snapshot.rs against `ensure_started` of sim.rs.
use systemrs.Base.{
  ℕ, List, ◌∷◌, [], true, false, some, ◌≡◌, refl, sym, ap, subst, ◌&&◌, inl, inr, length, ◌==◌,
  arith, Bool-cases,
}
use systemrs.Kernel.State.{Inner}
use systemrs.Kernel.Delta.{ensure_started}
use systemrs.Kernel.Snapshot.{
  KernelSnapshot, capture, snapshot, apply, is_quiescent, put_counters, apply_events, apply_procs,
  park,
}

-- An application that succeeds parks the kernel.
parked :
    (snap : KernelSnapshot) (r t : Inner) → apply snap r ≡ (true, t) → (u : Inner) × (park u ≡ t)
unfolding apply
parked snap r t applied =
    let (events_found, s₁) = apply_events snap.events (put_counters snap r) in
    let (procs_found, s₂) = apply_procs snap.procs s₁ in
    elim (Bool-cases (length snap.procs == r.procs.size && length snap.events == r.events.size)) [
      | inr differ ↦ absurd (ground (arith, applied, differ))
      | inl same ↦ elim (Bool-cases events_found) [
        | inr missing ↦ absurd (ground (arith, applied, same, missing))
        | inl found ↦ elim (Bool-cases procs_found) [
          | inr missing ↦ absurd (ground (arith, applied, same, found, missing))
          | inl all_found ↦ (s₂, ap (λ x. x.1) (rw (same, found, all_found) at applied))
        ]
      ]
    ]

-- The snapshot of a quiescent kernel that has not started is taken, but once it is applied the
-- initialize pass never runs: no initial process is left, and the kernel counts as started.
pub unstarted-lost :
    (s r t : Inner) (pid : ℕ) (rest : List ℕ)
    → is_quiescent s ≡ true
    → s.started ≡ false
    → s.initial_procs ≡ pid ∷ rest
    → apply (capture s) r ≡ (true, t)
    → (snapshot s ≡ some (capture s)) × (t.initial_procs ≡ []) × (ensure_started t ≡ some t)
unfolding snapshot ensure_started
unstarted-lost s r t pid rest quiet fresh waiting applied =
    let (u, e) = parked (capture s) r t applied in
    (
      rw (quiet) refl,
      ap (λ x. x.initial_procs) (sym e),
      subst (λ x. ensure_started x ≡ some x) e refl,
    )
