-- ===== src/Hart/Run/InMemory.antt =====
-- The bundled program of crates/systemrs-examples/src/rv32i.rs in the TLM memory, as
-- crates/systemrs-examples/examples/rv32i_hart.rs runs it.
use systemrs.Base.{
  ℕ, zero, suc, ◌+◌, ◌*◌, ◌%◌, ◌≤◌, ◌<◌, List, [], ◌∷◌, ◌++◌, Option, some, true, ◌≡◌, ◌⊎◌, inl,
  refl, arith, ap, ◌∙◌, All, All-get_elem?, length, length-append, get_elem?, get_elem?-lt, take,
  u64_max,
}
use mathlib.Core.Option.{some-injective}
use systemrs.Base.Word.{to_le_bytes, as_i32}
use systemrs.Time.{SimTime}
use systemrs.Tlm.Memory.{Memory, slice, fits}
use systemrs.Hart.{HartState, new}
use systemrs.Hart.Socket.{read, write, or_bytes}
use systemrs.Hart.Socket.OverMemory.{
  memory_transport, memory_bus, read-slice, or-to_le, load-store, read_same, Width,
}
use systemrs.Hart.Asm.{assemble, sum_program, program_sum_1_to_n, addi, add, blt, sw, ecall}
use systemrs.Hart.Asm.Encoding.{i_sum, s_sum}
use systemrs.Hart.Bounds.{IsWord}
use systemrs.Hart.Run.{run_hart}
use systemrs.Hart.Run.SumProgram.{sum_to, sum_to-le, run-sum_program}

-- A word of the program lies at four times its index.
slice-assemble :
    (words rest : List ℕ) (k w : ℕ)
    → get_elem? words k ≡ some w
    → slice (assemble words ++ rest) (4 * k) 4 ≡ to_le_bytes w
unfolding assemble
slice-assemble [] rest k w e = absurd (cc e)
slice-assemble (x ∷ xs) rest zero w e = ap to_le_bytes (some-injective x w e)
slice-assemble (x ∷ xs) rest (suc k) w e =
    let at : 4 * suc k ≡ suc (suc (suc (suc (4 * k)))) = omega arith in
    rw at (slice-assemble xs rest k w e)

length-assemble : (words : List ℕ) → length (assemble words) ≡ 4 * length words
unfolding assemble
length-assemble [] = refl
length-assemble (x ∷ xs) = omega (arith, length-assemble xs)

sum_program-words : (n addr : ℕ) → All IsWord (sum_program n addr)
unfolding sum_program addi sw add blt
sum_program-words n addr =
    let limit =
      i_sum 0x13 3 0 0 (as_i32 (n + 1)) (omega arith) (omega arith) (omega arith) (omega arith) in
    let store =
      s_sum 0x23 2 0 1 (as_i32 addr) (omega arith) (omega arith) (omega arith) (omega arith) in
    omega (arith, limit, store)

twice_sum : (n : ℕ) → 2 * sum_to n ≡ n * (n + 1)
twice_sum zero = refl
twice_sum (suc n) = grind (arith, twice_sum n)

module _ (rest : List ℕ) (latency cycle : SimTime) (n addr : ℕ) (limit : n ≤ 2046)
    (near : addr ≤ 2047) (after_code : 32 ≤ addr) (room : addr + 4 ≤ 32 + length rest)
    (size : 32 + length rest ≤ u64_max) where
  abbrev pub memory : Memory
  memory = record { storage = program_sum_1_to_n n addr ++ rest; latency = latency }

  memory_size : length memory.storage ≡ 32 + length rest
  unfolding program_sum_1_to_n sum_program
  memory_size = omega (
    arith,
    length-append (assemble (sum_program n addr)) rest,
    length-assemble (sum_program n addr),
  )

  index-lt : (k w : ℕ) → get_elem? (sum_program n addr) k ≡ some w → k < 8
  unfolding sum_program
  index-lt k w e = get_elem?-lt (sum_program n addr) k e

  last_word : get_elem? (sum_program n addr) 7 ≡ some ecall
  unfolding sum_program
  last_word = refl

  read-word :
      (k w : ℕ)
      → get_elem? (sum_program n addr) k ≡ some w
      → read memory_transport memory (4 * k) 4 ≡ (memory, some w)
  unfolding program_sum_1_to_n
  read-word k w e =
      let lt : k < 8 = index-lt k w e in
      let inside : fits (4 * k) 4 (length memory.storage) ≡ true = ground (arith, memory_size) in
      let word : IsWord w =
        All-get_elem? IsWord (sum_program n addr) k (sum_program-words n addr) e in
      read-slice memory (4 * k) 4 inside
      ∙ ap (λ bs. (memory, some (or_bytes 0 0 (take 4 bs))))
          (slice-assemble (sum_program n addr) rest k w e)
      ∙ ap (λ v. (memory, some v)) (or-to_le w word)

  -- What the run leaves: the hart halted at the ECALL, over a memory in which the word at `addr` is the
  -- sum and every other word is as before.
  abbrev pub Summed : Option (Memory × HartState) → ℕ → Type 0
  Summed out at =
      (m' : Memory) × (st : HartState) × (out ≡ some (m', st))
      × (st.pc ≡ 28)
      × (v : ℕ) × (read memory_transport m' addr 4 ≡ (m', some v))
      × (2 * v ≡ n * (n + 1))
      × ((read memory_transport m' at 4).1 ≡ (read memory_transport memory at 4).1)

  -- For `n` from 1 to 2046, the program loaded at address 0 of a TLM memory halts at its ECALL within
  -- 3 n + 5 rounds of the hart, and leaves 1 + ... + n, which is n (n + 1) / 2, in the word at `addr`,
  -- if that lies behind the code, in the memory and at most at 2047; a word that does not meet it is as
  -- before. More rounds give the same.
  pub run-Summed :
      (extra at : ℕ)
      → 1 ≤ n
      → (at + 4 ≤ addr) ⊎ (addr + 4 ≤ at)
      → Summed (run_hart memory_bus cycle (3 * n + 5 + extra) memory (new 0)) at
  run-Summed extra at some_n apart =
      let inside : fits addr 4 (length memory.storage) ≡ true = ground (arith, memory_size) in
      let m' = (write memory_transport memory addr (sum_to n) 4).0 in
      let sum : sum_to n % 4294967296 ≡ sum_to n = omega (arith, sum_to-le n limit) in
      let (stored_at, kept, far) = load-store memory addr (sum_to n) Width.word inside at 4 apart in
      let code = (load-store memory addr (sum_to n) Width.word inside 28 4 (inl (omega arith))).2 in
      let halt : read memory_transport m' 28 4 ≡ (m', some ecall) =
        ap (λ s. (s, (read memory_transport m' 28 4).1)) (read_same m' 28 4)
        ∙ ap (λ v. (m', v)) (code ∙ ap (λ r. r.1) (read-word 7 ecall last_word)) in
      let run =
        run-sum_program memory_bus cycle memory n addr read-word limit m' extra some_n near
          (ap (λ b. (m', b)) stored_at) halt in
      (m', _, run, refl, sum_to n, kept ∙ ap (λ v. (m', some v)) sum, twice_sum n, far)
