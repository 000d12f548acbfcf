-- ===== src/Hart/Exec.antt =====
-- crates/systemrs-examples/src/rv32i.rs: `step`, one instruction of the hart. An instruction gives the
-- bus, the hart and a result; one that traps leaves the hart as it was.
pub mod Precise
use Prim.Native.Nat.{bit_and}
use systemrs.Base.{ℕ, Bool, true, false, Option, none, some, ◌==◌, ◌||◌, if◌then◌else◌}
use systemrs.Base.Word.{wrapping_add, ◌>>>◌, as_u32, bit_not}
use systemrs.Hart.{Bus, HartState, StepResult, Trap, get_reg, set_reg, csr_op, apply_mret}
use systemrs.Hart.Alu.{sign_extend, branch_taken, op_imm, op}
use systemrs.Hart.Decode

abbrev pub illegal : StepResult
illegal = StepResult.trapped Trap.illegal_instruction

-- The end of an instruction that writes `rd` and goes on at `next_pc`.
abbrev pub commit : ℕ → ℕ → ℕ → HartState → HartState
commit rd value next_pc st = record st { regs = set_reg st.regs rd value; pc = next_pc }

unfoldable pub load_len : ℕ → Option ℕ
load_len funct3 =
    if funct3 == 0 || funct3 == 4
    then some 1
    else if funct3 == 1 || funct3 == 5
    then some 2
    else if funct3 == 2
    then some 4
    else none

unfoldable pub load_value : ℕ → ℕ → ℕ
unfolding sign_extend
load_value funct3 raw =
    if funct3 == 0
    then as_u32 (sign_extend raw 8)
    else if funct3 == 1
    then as_u32 (sign_extend raw 16)
    else raw

unfoldable pub store_len : ℕ → Option ℕ
store_len funct3 =
    if funct3 == 0
    then some 1
    else if funct3 == 1
    then some 2
    else if funct3 == 2
    then some 4
    else none

module _ {ℓ} {S : Type ℓ} (bus : Bus S) where
  abbrev pub Outcome : Type ℓ
  Outcome = S × HartState × StepResult

  -- `set_reg(..)` with the value of the instruction, or a trap where it has none.
  unfoldable pub write_back : S → HartState → ℕ → ℕ → Option ℕ → Outcome
  unfolding set_reg
  write_back s st inst next_pc none = (s, st, illegal)
  write_back s st inst next_pc (some value) =
      (s, commit (Decode.rd inst) value next_pc st, StepResult.next)

  unfoldable pub branch : S → HartState → ℕ → ℕ → Option Bool → Outcome
  branch s st inst next_pc none = (s, st, illegal)
  branch s st inst next_pc (some take) = (
    s,
    record st { pc = if take then wrapping_add st.pc (as_u32 (Decode.imm_b inst)) else next_pc },
    StepResult.next,
  )

  abbrev pub loaded : HartState → ℕ → ℕ → S × Option ℕ → Outcome
  unfolding load_value set_reg
  loaded st inst next_pc (s, none) = (s, st, StepResult.trapped Trap.load_access_fault)
  loaded st inst next_pc (s, some raw) =
      (s, commit (Decode.rd inst) (load_value (Decode.funct3 inst) raw) next_pc st, StepResult.next)

  unfoldable pub load : S → HartState → ℕ → ℕ → ℕ → Option ℕ → Outcome
  unfolding load_value set_reg
  load s st inst next_pc rs1v none = (s, st, illegal)
  load s st inst next_pc rs1v (some len) =
      loaded st inst next_pc (bus.read s (wrapping_add rs1v (as_u32 (Decode.imm_i inst))) len)

  abbrev pub stored : HartState → ℕ → S × Bool → Outcome
  stored st next_pc (s, true) = (s, record st { pc = next_pc }, StepResult.next)
  stored st next_pc (s, false) = (s, st, StepResult.trapped Trap.store_access_fault)

  unfoldable pub store : S → HartState → ℕ → ℕ → ℕ → ℕ → Option ℕ → Outcome
  store s st inst next_pc rs1v rs2v none = (s, st, illegal)
  store s st inst next_pc rs1v rs2v (some len) =
      stored st next_pc (bus.write s (wrapping_add rs1v (as_u32 (Decode.imm_s inst))) rs2v len)

  -- ECALL, EBREAK, MRET, WFI and the control registers.
  unfoldable pub system : S → HartState → ℕ → ℕ → ℕ → Outcome
  unfolding csr_op apply_mret
  system s st inst next_pc rs1v =
      let csr_addr = bit_and (inst >>> 20) 0xfff in
      let funct3 = Decode.funct3 inst in
      if funct3 == 0
      then (if csr_addr == 0
          then (s, st, StepResult.trapped Trap.ecall_from_m)
          else if csr_addr == 1
          then (s, st, StepResult.trapped Trap.breakpoint)
          else if csr_addr == 0x302
          then (s, record st { pc = st.csr.mepc; csr = apply_mret st.csr }, StepResult.next)
          else if csr_addr == 0x105
          then (s, record st { pc = next_pc }, StepResult.wait_for_interrupt)
          else (s, st, illegal))
      else if funct3 == 4
      then (s, st, illegal)
      else (
        s,
        record (csr_op st funct3 csr_addr (Decode.rs1 inst) rs1v (Decode.rd inst)) { pc = next_pc },
        StepResult.next,
      )

  unfoldable pub step : S → HartState → ℕ → Outcome
  unfolding Decode.opcode Decode.rd Decode.funct3 Decode.rs1 Decode.rs2 Decode.funct7 Decode.imm_i
      Decode.imm_s Decode.imm_b Decode.imm_u Decode.imm_j set_reg write_back branch load store
      system branch_taken op_imm op load_len store_len
  step s st inst =
      let opcode = Decode.opcode inst in
      let funct3 = Decode.funct3 inst in
      let funct7 = Decode.funct7 inst in
      let rs1v = get_reg st.regs (Decode.rs1 inst) in
      let rs2v = get_reg st.regs (Decode.rs2 inst) in
      let next_pc = wrapping_add st.pc 4 in
      let finish = write_back s st inst next_pc in
      if opcode == 0x37
      then finish (some (Decode.imm_u inst))
      else if opcode == 0x17
      then finish (some (wrapping_add st.pc (Decode.imm_u inst)))
      else if opcode == 0x6f
      then (
        s,
        commit (Decode.rd inst) next_pc (wrapping_add st.pc (as_u32 (Decode.imm_j inst))) st,
        StepResult.next,
      )
      else if opcode == 0x67
      then (
        s,
        commit (Decode.rd inst) next_pc
            (bit_and (wrapping_add rs1v (as_u32 (Decode.imm_i inst))) (bit_not 1)) st,
        StepResult.next,
      )
      else if opcode == 0x63
      then branch s st inst next_pc (branch_taken funct3 rs1v rs2v)
      else if opcode == 0x03
      then load s st inst next_pc rs1v (load_len funct3)
      else if opcode == 0x23
      then store s st inst next_pc rs1v rs2v (store_len funct3)
      else if opcode == 0x13
      then finish (op_imm funct3 funct7 (bit_and (inst >>> 20) 0x1f) rs1v (Decode.imm_i inst))
      else if opcode == 0x33
      then finish (op funct3 funct7 rs1v rs2v)
      else if opcode == 0x0f
      then (s, record st { pc = next_pc }, StepResult.next)
      else if opcode == 0x73
      then system s st inst next_pc rs1v
      else (s, st, illegal)
