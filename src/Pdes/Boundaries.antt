-- ===== src/Pdes/Boundaries.antt =====
-- The rounds of crates/systemrs-pdes/src/orchestrator.rs: their boundaries, their number, and the
-- latency of the links of crates/systemrs-pdes/src/link.rs.
use systemrs.Base.{
  ℕ, zero, suc, ◌+◌, ◌*◌, ◌≤◌, ◌<◌, List, [], ◌∷◌, true, false, ◌≡◌, refl, ap, ◌⊎◌, inl, inr,
  Bool-cases, arith, ltb, leb,
}
use native.Mathlib.Nat.{zero-mul, mul-add, mul-le-mul_right}
use systemrs.Time.{SimTime, inf, add, saturating_mul}
use systemrs.Time.Laws.{add-eq}
use systemrs.Kernel.Activate.{Run, done, out_of_fuel}
use systemrs.Pdes.{
  BoundaryLink, PdesError, OrchestratorBuilder, connect, send, global_quantum_boundary, min_time,
  RegionOps, round, run_rounds, run,
}

boundary-zero : (q_index : ℕ) → global_quantum_boundary q_index 0 ≡ 0
unfolding global_quantum_boundary saturating_mul
boundary-zero q_index = rw (zero-mul (add q_index 1)) (ground arith)

-- The boundary grows by at least one with each round, up to the end of time.
le-boundary :
    (q_index : ℕ) (quantum : SimTime)
    → 0 < quantum
    → add q_index 1 ≤ global_quantum_boundary q_index quantum
unfolding global_quantum_boundary saturating_mul add
le-boundary q_index quantum h =
    let p : 1 * add q_index 1 ≤ quantum * add q_index 1 = mul-le-mul_right (add q_index 1) h in
    ground (arith, p)

add-exact : (n : ℕ) → add n 1 < inf → add n 1 ≡ n + 1
unfolding add
add-exact n h = ground (arith, h)

first-le : (quantum : SimTime) → global_quantum_boundary 0 quantum ≤ 0 + quantum
unfolding global_quantum_boundary saturating_mul
first-le quantum =
    let add_one : add 0 1 ≡ 1 = add-eq 0 1 (omega arith) in rw (add_one) (ground arith)

-- Short of the end of time, the next boundary is later, by at most a quantum.
boundary-step :
    (q_index : ℕ) (quantum : SimTime)
    → 0 < quantum
    → global_quantum_boundary q_index quantum < inf
    → (global_quantum_boundary q_index quantum < global_quantum_boundary (add q_index 1) quantum)
      × (global_quantum_boundary (add q_index 1) quantum
          ≤ global_quantum_boundary q_index quantum + quantum)
unfolding global_quantum_boundary saturating_mul
boundary-step q_index quantum h short =
    let p : 1 * add q_index 1 ≤ quantum * add q_index 1 = mul-le-mul_right (add q_index 1) h in
    let low : add q_index 1 + 1 ≤ inf = ground (arith, p, short) in
    rw (add-eq (add q_index 1) 1 low, mul-add quantum (add q_index 1) 1)
      (ground (arith, p, short, h), ground (arith, p, short, h))

-- The boundaries of the rounds after a time: each round ends later than the one before and by at most
-- a quantum, and the last one ends at the end of the run.
abbrev pub Rounds : SimTime → SimTime → SimTime → List SimTime → Type 0
Rounds quantum end from [] = ⊥
Rounds quantum end from (b ∷ []) = (from ≤ b) × (b ≤ from + quantum) × (b ≡ end)
Rounds quantum end from (b ∷ c ∷ rest) =
    (from < b) × (b ≤ from + quantum) × (b < end) × Rounds quantum end b (c ∷ rest)

Rounds-cons :
    (quantum end from b : SimTime) (bs : List SimTime)
    → from < b
    → b ≤ from + quantum
    → b < end
    → Rounds quantum end b bs
    → Rounds quantum end from (b ∷ bs)
Rounds-cons quantum end from b [] lt le early h = absurd h
Rounds-cons quantum end from b (c ∷ rest) lt le early h = (lt, le, early, h)

not_last :
    (q_index : ℕ) (quantum end : SimTime)
    → 0 < quantum
    → end ≤ inf
    → leb end (min_time (global_quantum_boundary q_index quantum) end) ≡ false
    → (min_time (global_quantum_boundary q_index quantum) end
        ≡ global_quantum_boundary q_index quantum)
      × (global_quantum_boundary q_index quantum < end)
      × (add q_index 1 ≡ q_index + 1)
      × (q_index + 1 < end)
not_last q_index quantum end pos fits more =
    let e : min_time (global_quantum_boundary q_index quantum) end
        ≡ global_quantum_boundary q_index quantum =
      ground (arith, more) in
    let short : global_quantum_boundary q_index quantum < end = ground (arith, more) in
    let next : add q_index 1 ≡ q_index + 1 =
      add-exact q_index (omega (arith, le-boundary q_index quantum pos, short, fits)) in
    (e, short, next, omega (arith, le-boundary q_index quantum pos, short, next))

module _ {R A : Type 0} (ops : RegionOps R A) where
  rounds-zero :
      (fuel q_index : ℕ) (end : SimTime) (regions : List R)
      → 0 < end
      → run_rounds ops fuel q_index 0 end regions ≡ out_of_fuel
  unfolding run_rounds
  rounds-zero zero q_index end regions h = refl
  rounds-zero (suc fuel) q_index end regions h =
      let first : min_time 0 end ≡ 0 = ground (arith, h) in
      let more : leb end 0 ≡ false = ground (arith, h) in
      rw (boundary-zero q_index, first, more)
        (rw (rounds-zero fuel (add q_index 1) end (round ops 0 regions) h) refl)

  -- A run with a quantum of zero never gets past time zero: whatever the number of rounds, it has not
  -- ended, if its end is later than that.
  pub run-zero_quantum :
      (fuel : ℕ) (end : SimTime) (regions : List R)
      → 0 < end
      → run ops fuel 0 end regions ≡ out_of_fuel
  unfolding run
  run-zero_quantum fuel end regions h = rounds-zero fuel 0 end regions h

  abbrev pub Ended : SimTime → SimTime → SimTime → Run (List SimTime × List R) → Type 0
  Ended quantum end from result =
      (bs : List SimTime) × (rs : List R) × (result ≡ done (bs, rs)) × Rounds quantum end from bs

  last-Ended :
      (end from quantum b : SimTime) (regions : List R)
      → from ≤ end
      → from < b
      → b ≤ from + quantum
      → leb end (min_time b end) ≡ true
      → Ended quantum end from (done (min_time b end ∷ [], regions))
  last-Ended end from quantum b regions le lt near last = (
    min_time b end ∷ [],
    regions,
    refl,
    (ground (arith, last), ground (arith, last), ground (arith, last)),
  )

  rounds-Ended :
      (fuel q_index : ℕ) (quantum end from : SimTime) (regions : List R)
      → 0 < quantum
      → end ≤ inf
      → end ≤ q_index + fuel
      → from ≤ end
      → from < global_quantum_boundary q_index quantum
      → global_quantum_boundary q_index quantum ≤ from + quantum
      → Ended quantum end from (run_rounds ops (suc fuel) q_index quantum end regions)
  unfolding run_rounds
  rounds-Ended zero q_index quantum end from regions pos fits enough le lt near =
      elim (Bool-cases (leb end (min_time (global_quantum_boundary q_index quantum) end))) [
        | inl last ↦ rw (last) (
            last-Ended end from quantum (global_quantum_boundary q_index quantum) _ le lt near last)
        | inr more ↦
            let (_, _, _, early) = not_last q_index quantum end pos fits more in
            absurd (omega (arith, early, enough))
      ]
  rounds-Ended (suc fuel) q_index quantum end from regions pos fits enough le lt near =
      elim (Bool-cases (leb end (min_time (global_quantum_boundary q_index quantum) end))) [
        | inl last ↦ rw (last) (
            last-Ended end from quantum (global_quantum_boundary q_index quantum) _ le lt near last)
        | inr more ↦
            let (e, short, next, early) = not_last q_index quantum end pos fits more in
            let (grows, steps) = boundary-step q_index quantum pos (omega (arith, short, fits)) in
            let (bs, rs, ends, rounds) =
              rounds-Ended fuel (add q_index 1) quantum end
                (global_quantum_boundary q_index quantum)
                (round ops (global_quantum_boundary q_index quantum) regions) pos fits
                (omega (arith, next, enough)) (omega (arith, short)) grows steps in
            rw (more, e, ends)
              (
                global_quantum_boundary q_index quantum ∷ bs,
                rs,
                refl,
                Rounds-cons quantum end from (global_quantum_boundary q_index quantum) bs lt near
                    short rounds,
              )
      ]

  -- A run ends: a number of rounds as large as its end is enough, if the quantum is not zero. Its
  -- rounds are as they should be: each ends later than the one before and by at most a quantum, and
  -- the last one at the end of the run.
  pub run-Ended :
      (fuel : ℕ) (quantum end : SimTime) (regions : List R)
      → 0 < quantum
      → end ≤ inf
      → end ≤ fuel
      → Ended quantum end 0 (run ops (suc fuel) quantum end regions)
  unfolding run
  run-Ended fuel quantum end regions pos fits enough =
      let first = le-boundary 0 quantum pos in
      let add_one : add 0 1 ≡ 1 = add-eq 0 1 (omega arith) in
      let first_near : global_quantum_boundary 0 quantum ≤ 0 + quantum = first-le quantum in
      rounds-Ended fuel 0 quantum end 0 regions pos fits (omega (arith, enough)) (omega arith)
        (omega (arith, first, add_one)) first_near

latency_of : PdesError ⊎ (BoundaryLink × OrchestratorBuilder) → SimTime
latency_of (inl e) = 0
latency_of (inr (link, builder)) = link.latency

-- A message never arrives in the past of its receiver: over a link that the builder accepted, it is
-- due at the end of the round in which it is sent or later, for any round that is at most a quantum
-- long and ends within time.
pub lookahead :
    {A : Type 0} (builder builder' : OrchestratorBuilder) (dst src_seq : ℕ) (latency : SimTime)
    → (link : BoundaryLink) (value : A) (from now b : SimTime)
    → connect builder dst latency ≡ inr (link, builder')
    → from ≤ now
    → b ≤ from + builder.quantum
    → b ≤ inf
    → b ≤ (send link now src_seq value).deliver_at
unfolding connect send add latency_of
lookahead builder builder' dst src_seq latency link value from now b accepted later near fits =
    elim (Bool-cases (ltb latency builder.quantum)) [
      | inl short ↦ absurd (cc (rw (short) at accepted))
      | inr enough ↦
          let e : latency ≡ link.latency = ap latency_of (rw (enough) at accepted) in
          ground (arith, e, later, near, fits, enough)
    ]
