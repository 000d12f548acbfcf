-- ===== src/Hart/Run/SumProgram.antt =====
-- The bundled program of crates/systemrs-examples/src/rv32i.rs, run on the hart.
use systemrs.Base.{
  ℕ, zero, suc, ◌+◌, ◌-◌, ◌*◌, ◌%◌, ◌≤◌, ◌<◌, List, ◌∷◌, Option, none, some, true, false, ◌≡◌, refl,
  arith, ap, ◌∙◌, get_elem?, replicate, if◌then◌else◌,
}
use systemrs.Base.Int.{ℤ, pos, ltb_ℤ}
use systemrs.Base.Word.{wrapping_add, as_u32, as_i32}
use systemrs.Time.{SimTime, is_zero}
use systemrs.Hart.{Bus, HartState, StepResult, get_reg, set_reg, new}
use systemrs.Hart.Exec.{step, commit, write_back, store, store_len}
use systemrs.Hart.Alu.{op_imm}
use systemrs.Hart.Asm.Roundtrip.{Format, Reads, encode-Reads}
use systemrs.Hart.Asm.{sum_program, add, addi, blt, sw, ecall}
use systemrs.Kernel.Process.{WaitReq}
use systemrs.Hart.Run.{Round, run_hart, hart_round}

module _ {ℓ} {S : Type ℓ} (bus : Bus S) where
  step-addi :
      (s : S) (st : HartState) (inst rd rs1 : ℕ) (imm : ℤ)
      → Reads (Format.imm 0x13 rd 0 rs1 imm) inst
      → step bus s st inst ≡ (
        s,
        commit rd (wrapping_add (get_reg st.regs rs1) (as_u32 imm)) (wrapping_add st.pc 4) st,
        StepResult.next,
      )
  unfolding step write_back op_imm
  step-addi s st inst rd rs1 imm (a, b, c, d, e) = rw (a, c, b, d, e) refl

  step-sw :
      (s s' : S) (st : HartState) (inst rs1 rs2 : ℕ) (imm : ℤ)
      → Reads (Format.sto 0x23 2 rs1 rs2 imm) inst
      → bus.write s (wrapping_add (get_reg st.regs rs1) (as_u32 imm)) (get_reg st.regs rs2) 4
        ≡ (s', true)
      → step bus s st inst ≡ (s', record st { pc = wrapping_add st.pc 4 }, StepResult.next)
  unfolding step store store_len
  step-sw s s' st inst rs1 rs2 imm (a, b, c, d, e) w = rw (a, b, c, d, e, w) refl

module _ {ℓ} {S : Type ℓ} (bus : Bus S) (cycle : SimTime) where
  run-again :
      (f : ℕ) (s s' : S) (st st' : HartState) (w : Option WaitReq)
      → hart_round bus cycle s st ≡ Round.again s' st' w
      → run_hart bus cycle (suc f) s st ≡ run_hart bus cycle f s' st'
  unfolding run_hart
  run-again f s s' st st' w e = rw (e, run_hart) refl

  run-halted :
      (f : ℕ) (s s' : S) (st st' : HartState)
      → hart_round bus cycle s st ≡ Round.halted s' st'
      → run_hart bus cycle (suc f) s st ≡ some (s', st')
  unfolding run_hart
  run-halted f s s' st st' e = rw (e, run_hart) refl

-- The sum of the numbers up to `n`.
abbrev pub sum_to : ℕ → ℕ
sum_to zero = 0
sum_to (suc n) = sum_to n + suc n

pub sum_to-le : (n : ℕ) → n ≤ 2046 → sum_to n ≤ n * 2046
sum_to-le zero h = omega arith
sum_to-le (suc n) h = omega (arith, sum_to-le n (omega arith))

abbrev pub hart : ℕ → ℕ → ℕ → ℕ → HartState
hart pc x1 x2 x3 = record (new 0) { regs = 0 ∷ x1 ∷ x2 ∷ x3 ∷ replicate 28 0; pc = pc }

-- The words of the program lie on the bus from address 0 on.
abbrev pub Loaded {ℓ} : {S : Type ℓ} → Bus S → S → List ℕ → Type ℓ
Loaded bus s program = (k w : ℕ) → get_elem? program k ≡ some w → bus.read s (4 * k) 4 ≡ (s, some w)

module _ {ℓ} {S : Type ℓ} (bus : Bus S) (cycle : SimTime) (s : S) (n addr : ℕ)
    (loaded : Loaded bus s (sum_program n addr)) where
  abbrev wait : Option WaitReq
  wait = if is_zero cycle then none else some (WaitReq.time cycle)

  clear_sum : hart_round bus cycle s (new 0) ≡ Round.again s (hart 4 0 0 0) wait
  unfolding hart_round step sum_program new addi
  clear_sum = rw (loaded 0 _ refl) refl

  add_sum :
      (a i l : ℕ)
      → hart_round bus cycle s (hart 12 a i l) ≡ Round.again s (hart 16 (wrapping_add a i) i l) wait
  unfolding hart_round step sum_program new add
  add_sum a i l = rw (loaded 3 _ refl) refl

  count :
      (a i l : ℕ)
      → hart_round bus cycle s (hart 16 a i l) ≡ Round.again s (hart 20 a (wrapping_add i 1) l) wait
  unfolding hart_round step sum_program new addi
  count a i l = rw (loaded 4 _ refl) refl

  loop_back :
      (a i l : ℕ)
      → i < l
      → l < 2147483648
      → hart_round bus cycle s (hart 20 a i l) ≡ Round.again s (hart 12 a i l) wait
  unfolding hart_round step sum_program new blt
  loop_back a i l h g =
      let taken : ltb_ℤ (as_i32 i) (as_i32 l) ≡ true = ground arith in
      rw (loaded 5 _ refl, taken) refl

  loop_end :
      (a i l : ℕ)
      → l ≤ i
      → i < 2147483648
      → hart_round bus cycle s (hart 20 a i l) ≡ Round.again s (hart 24 a i l) wait
  unfolding hart_round step sum_program new blt
  loop_end a i l h g =
      let passed : ltb_ℤ (as_i32 i) (as_i32 l) ≡ false = ground arith in
      rw (loaded 5 _ refl, passed) refl

  start_count : hart_round bus cycle s (hart 4 0 0 0) ≡ Round.again s (hart 8 0 1 0) wait
  unfolding hart_round step sum_program new addi
  start_count = rw (loaded 1 _ refl) refl

  limit_lem :
      n ≤ 2046 → hart_round bus cycle s (hart 8 0 1 0) ≡ Round.again s (hart 12 0 1 (n + 1)) wait
  unfolding hart_round sum_program new addi set_reg
  limit_lem h =
      let imm : as_i32 (n + 1) ≡ pos (n + 1) = ground arith in
      let here = hart 8 0 1 0 in
      let inst = addi 3 0 (as_i32 (n + 1)) in
      let fields : Reads (Format.imm 0x13 3 0 0 (pos (n + 1))) inst =
        rw imm (encode-Reads (Format.imm 0x13 3 0 0 (pos (n + 1))) (omega arith)) in
      let value : (n + 1) % 4294967296 ≡ n + 1 = omega arith in
      let sum : (0 + (n + 1)) % 4294967296 ≡ n + 1 = omega arith in
      rw (loaded 2 _ refl, step-addi bus s here inst 3 0 (pos (n + 1)) fields, value, sum) refl

  store_sum :
      (s' : S) (a i l : ℕ)
      → addr ≤ 2047
      → bus.write s addr a 4 ≡ (s', true)
      → hart_round bus cycle s (hart 24 a i l) ≡ Round.again s' (hart 28 a i l) wait
  unfolding hart_round sum_program new sw
  store_sum s' a i l h w =
      let imm : as_i32 addr ≡ pos addr = ground arith in
      let here = hart 24 a i l in
      let inst = sw 1 (as_i32 addr) 0 in
      let fields : Reads (Format.sto 0x23 2 0 1 (pos addr)) inst =
        rw imm (encode-Reads (Format.sto 0x23 2 0 1 (pos addr)) (omega arith)) in
      let at : wrapping_add 0 (addr % 4294967296) ≡ addr = omega arith in
      let written : bus.write s (wrapping_add 0 (addr % 4294967296)) a 4 ≡ (s', true) = rw at w in
      rw (loaded 6 _ refl, step-sw bus s s' here inst 0 1 (pos addr) fields written) refl

  stop :
      (s' : S) (a i l : ℕ)
      → bus.read s' 28 4 ≡ (s', some ecall)
      → hart_round bus cycle s' (hart 28 a i l) ≡ Round.halted s' (hart 28 a i l)
  unfolding hart_round step new
  stop s' a i l e = rw e refl

  -- The rounds of the loop while `k` more numbers follow the next one.
  abbrev loop_rounds : ℕ → ℕ → ℕ
  loop_rounds zero f = suc (suc (suc f))
  loop_rounds (suc k) f = suc (suc (suc (loop_rounds k f)))

  module _ (h : n ≤ 2046) where
    body :
        (f j : ℕ)
        → j < n
        → run_hart bus cycle (suc (suc f)) s (hart 12 (sum_to j) (suc j) (n + 1))
          ≡ run_hart bus cycle f s (hart 20 (sum_to (suc j)) (suc (suc j)) (n + 1))
    body f j lt =
        let sum : wrapping_add (sum_to j) (suc j) ≡ sum_to j + suc j =
          omega (arith, sum_to-le j (omega arith)) in
        let next : wrapping_add (suc j) 1 ≡ suc (suc j) = omega arith in
        run-again bus cycle _ _ _ _ _ wait (add_sum (sum_to j) (suc j) (n + 1))
        ∙ run-again bus cycle _ _ _ _ _ wait (count _ (suc j) (n + 1))
        ∙ ap (λ v. run_hart bus cycle f s (hart 20 v (wrapping_add (suc j) 1) (n + 1))) sum
        ∙ ap (λ v. run_hart bus cycle f s (hart 20 (sum_to (suc j)) v (n + 1))) next

    loop :
        (k f j : ℕ)
        → j + suc k ≡ n
        → run_hart bus cycle (loop_rounds k f) s (hart 12 (sum_to j) (suc j) (n + 1))
          ≡ run_hart bus cycle f s (hart 24 (sum_to n) (n + 1) (n + 1))
    loop zero f j e =
        let last : suc j ≡ n = omega arith in
        let over : suc (suc j) ≡ n + 1 = omega arith in
        body (suc f) j (omega arith)
        ∙ run-again bus cycle _ _ _ _ _ wait
            (loop_end _ (suc (suc j)) (n + 1) (omega arith) (omega arith))
        ∙ ap (λ v. run_hart bus cycle f s (hart 24 (sum_to v) (suc (suc j)) (n + 1))) last
        ∙ ap (λ v. run_hart bus cycle f s (hart 24 (sum_to n) v (n + 1))) over
    loop (suc k) f j e =
        body (suc (loop_rounds k f)) j (omega arith)
        ∙ run-again bus cycle _ _ _ _ _ wait
            (loop_back _ (suc (suc j)) (n + 1) (omega arith) (omega arith))
        ∙ loop k f (suc j) (omega arith)

    loop_rounds-add : (k f : ℕ) → loop_rounds k f ≡ 3 * k + 3 + f
    loop_rounds-add zero f = omega arith
    loop_rounds-add (suc k) f = omega (arith, loop_rounds-add k f)

    pub run-sum_program :
        (s' : S) (extra : ℕ)
        → 1 ≤ n
        → addr ≤ 2047
        → bus.write s addr (sum_to n) 4 ≡ (s', true)
        → bus.read s' 28 4 ≡ (s', some ecall)
        → run_hart bus cycle (3 * n + 5 + extra) s (new 0)
          ≡ some (s', hart 28 (sum_to n) (n + 1) (n + 1))
    run-sum_program s' extra some_n near written halt =
        let rounds : 3 * n + 5 + extra ≡ suc (suc (suc (loop_rounds (n - 1) (suc (suc extra))))) =
          omega (arith, loop_rounds-add (n - 1) (suc (suc extra))) in
        ap (λ f. run_hart bus cycle f s (new 0)) rounds
        ∙ run-again bus cycle _ _ _ _ _ wait clear_sum
        ∙ run-again bus cycle _ _ _ _ _ wait start_count
        ∙ run-again bus cycle _ _ _ _ _ wait (limit_lem h)
        ∙ loop (n - 1) (suc (suc extra)) 0 (omega arith)
        ∙ run-again bus cycle _ _ _ _ _ wait (store_sum s' (sum_to n) (n + 1) (n + 1) near written)
        ∙ run-halted bus cycle extra _ _ _ _ (stop s' (sum_to n) (n + 1) (n + 1) halt)
