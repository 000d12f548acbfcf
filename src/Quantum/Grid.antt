-- ===== src/Quantum/Grid.antt =====
-- The grid of synchronisation points of crates/systemrs-tlm-utils/src/quantum.rs.
use systemrs.Base.{
  ◌+◌, ◌*◌, ◌/◌, ◌≤◌, ◌<◌, List, [], ◌∷◌, some, ◌≡◌, if◌then◌else◌, leb, arith, inl, inr,
  Bool-cases,
}
use native.Mathlib.Nat.{div-add-mod, mod-lt}
use systemrs.Time.{SimTime, inf, add, sub}
use systemrs.Time.Laws.{add-eq}
use systemrs.Quantum.{
  GlobalQuantum, QuantumKeeper, compute_local_quantum, inc, need_sync, reset, get_current_time,
}

-- The first multiple of the quantum after a time.
abbrev pub boundary : SimTime → SimTime → SimTime
boundary q now = (now / q) * q + q

local_quantum-boundary :
    (q now : SimTime)
    → 0 < q
    → (now + compute_local_quantum (record { quantum = q }) now ≡ boundary q now)
      × (now < boundary q now)
unfolding compute_local_quantum sub
local_quantum-boundary q now h = (
  ground (arith, div-add-mod now q, mod-lt now h),
  ground (arith, div-add-mod now q, mod-lt now h),
)

-- The loop of an initiator: it adds up the time of a piece of work, and synchronises if it must, which
-- resumes it at its current time.
unfoldable pub work : GlobalQuantum → SimTime → SimTime × QuantumKeeper → SimTime × QuantumKeeper
unfolding inc need_sync reset get_current_time
work gq t (now, k) =
    let k' = inc t k in
    let resumed = get_current_time now k' in
    if need_sync now k' then (resumed, reset resumed (some gq) k') else (now, k')

unfoldable pub work_all :
    GlobalQuantum → List SimTime → SimTime × QuantumKeeper → SimTime × QuantumKeeper
unfolding work
work_all gq [] m = m
work_all gq (t ∷ ts) m = work_all gq ts (work gq t m)

abbrev pub total : List SimTime → SimTime
total [] = 0
total (t ∷ ts) = t + total ts

-- The next synchronisation is at the first multiple of the quantum after the kernel's time, and the
-- initiator's own time is before it.
pub record Decoupled (q : SimTime) (m : SimTime × QuantumKeeper) : Type 0 where
  pub on_grid : m.1.next_sync_point ≡ boundary q m.0
  pub not_past : m.0 + m.1.local_time < m.1.next_sync_point

abbrev pub gq_of : SimTime → GlobalQuantum
gq_of q = record { quantum = q }

reset-Decoupled :
    (q now : SimTime) (k : QuantumKeeper)
    → 0 < q
    → now + q ≤ inf
    → Decoupled q (now, reset now (some (gq_of q)) k)
unfolding reset add
reset-Decoupled q now k h fits =
    let (e, lt) = local_quantum-boundary q now h in
    record {
      on_grid = ground (arith, e, div-add-mod now q, mod-lt now h);
      not_past = ground (arith, e, lt, div-add-mod now q, mod-lt now h);
    }

work-Decoupled :
    (q t now : SimTime) (k : QuantumKeeper)
    → 0 < q
    → now + k.local_time + t + q ≤ inf
    → Decoupled q (now, k)
    → Decoupled q (work (gq_of q) t (now, k))
      × ((work (gq_of q) t (now, k)).0 + (work (gq_of q) t (now, k)).1.local_time
          ≡ now + k.local_time + t)
unfolding work inc need_sync get_current_time reset
work-Decoupled q t now k h fits d =
    let exact : add k.local_time t ≡ k.local_time + t =
      add-eq k.local_time t (omega (arith, fits)) in
    let resumed : add now (k.local_time + t) ≡ now + (k.local_time + t) =
      add-eq now (k.local_time + t) (omega (arith, fits)) in
    elim (Bool-cases (leb k.next_sync_point (now + (k.local_time + t)))) [
      | inl due ↦
          rw (exact, resumed, due)
            (
              reset-Decoupled q (now + (k.local_time + t))
                  (record k { local_time = k.local_time + t }) h (omega (arith, fits)),
              omega arith,
            )
      | inr early ↦
          rw (exact, resumed, early)
            (record { on_grid = d.on_grid; not_past = ground (arith, early) }, omega arith)
    ]

work_all-kept :
    (q now : SimTime) (k : QuantumKeeper) (ts : List SimTime)
    → 0 < q
    → now + k.local_time + total ts + q ≤ inf
    → Decoupled q (now, k)
    → Decoupled q (work_all (gq_of q) ts (now, k))
      × ((work_all (gq_of q) ts (now, k)).0 + (work_all (gq_of q) ts (now, k)).1.local_time
          ≡ now + k.local_time + total ts)
unfolding work_all
work_all-kept q now k [] h fits d = (d, omega arith)
work_all-kept q now k (t ∷ ts) h fits d =
    let (d₁, e₁) = work-Decoupled q t now k h (omega (arith, fits)) d in
    let (d₂, e₂) =
      work_all-kept q (work (gq_of q) t (now, k)).0 (work (gq_of q) t (now, k)).1 ts h
        (omega (arith, fits, e₁)) d₁ in
    (d₂, omega (arith, e₁, e₂))

-- However an initiator's work is cut into pieces, no time is lost or gained by synchronising: the
-- kernel's time and the initiator's local time add up to the start and the work done. The next
-- synchronisation is always at the first multiple of the quantum after the kernel's time, and the
-- initiator's own time is before it, so that it runs ahead of the kernel by less than a quantum. The
-- quantum is not zero, and the end of time is not reached.
pub work_all-Decoupled :
    (q start : SimTime) (k : QuantumKeeper) (ts : List SimTime)
    → 0 < q
    → start + total ts + q ≤ inf
    → Decoupled q (work_all (gq_of q) ts (start, reset start (some (gq_of q)) k))
      × ((work_all (gq_of q) ts (start, reset start (some (gq_of q)) k)).0
            + (work_all (gq_of q) ts (start, reset start (some (gq_of q)) k)).1.local_time
          ≡ start + total ts)
unfolding reset
work_all-Decoupled q start k ts h fits =
    let (d, e) =
      work_all-kept q start (reset start (some (gq_of q)) k) ts h (omega (arith, fits))
        (reset-Decoupled q start k h (omega (arith, fits))) in
    (d, omega (arith, e))
