-- ===== src/Kernel/Notify/Heap.antt =====
-- The order of the timed heap of crates/systemrs-kernel/src/timed.rs.
use systemrs.Base.{◌≡◌, ◌≤◌, ◌<◌, ◌⊎◌, inl, inr, List, [], ◌∷◌, true, false, arith, All, Bool-cases}
use systemrs.Kernel.State.{TimedEntry}
use systemrs.Kernel.Notify.{pops_before, heap_push}

-- No entry pops before one above it.
abbrev pub Sorted : List TimedEntry → Type 0
Sorted [] = Unit {0}
Sorted (e ∷ heap) = All (λ x. pops_before x e ≡ false) heap × Sorted heap

not_before_trans :
    (x y z : TimedEntry)
    → pops_before y x ≡ false
    → pops_before z y ≡ false
    → pops_before z x ≡ false
unfolding pops_before
not_before_trans x y z h k = ground arith

before_asym : (x y : TimedEntry) → pops_before x y ≡ true → pops_before y x ≡ false
unfolding pops_before
before_asym x y h = ground arith

-- The order is the one by time, and then by sequence number.
pub not_before-order :
    (x y : TimedEntry)
    → pops_before x y ≡ false
    → (y.when < x.when) ⊎ ((y.when ≡ x.when) × (y.seq ≤ x.seq))
unfolding pops_before
not_before-order x y h = ground arith

pub All-heap_push :
    (P : TimedEntry → Type 0) (e : TimedEntry) (heap : List TimedEntry)
    → P e
    → All P heap
    → All P (heap_push e heap)
unfolding heap_push
All-heap_push P e [] p h = (p, tt)
All-heap_push P e (x ∷ heap) p (q, h) = elim (Bool-cases (pops_before e x)) [
  | inl b ↦ rw b (p, (q, h))
  | inr b ↦ rw b (q, All-heap_push P e heap p h)
]

not_before-All :
    (x e : TimedEntry) (heap : List TimedEntry)
    → pops_before x e ≡ false
    → All (λ y. pops_before y x ≡ false) heap
    → All (λ y. pops_before y e ≡ false) heap
not_before-All x e [] b h = tt
not_before-All x e (y ∷ heap) b (q, h) = (not_before_trans e x y b q, not_before-All x e heap b h)

-- A push keeps the heap in its order.
pub heap_push-Sorted :
    (e : TimedEntry) (heap : List TimedEntry) → Sorted heap → Sorted (heap_push e heap)
unfolding heap_push
heap_push-Sorted e [] h = (tt, tt)
heap_push-Sorted e (x ∷ heap) (a, h) = elim (Bool-cases (pops_before e x)) [
  | inl b ↦ rw b ((before_asym e x b, not_before-All x e heap (before_asym e x b) a), (a, h))
  | inr b ↦
      rw b (All-heap_push (λ y. pops_before y x ≡ false) e heap b a, heap_push-Sorted e heap h)
]
