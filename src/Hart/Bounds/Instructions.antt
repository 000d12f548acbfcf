-- ===== src/Hart/Bounds/Instructions.antt =====
-- Every instruction of crates/systemrs-examples/src/rv32i.rs keeps the ranges of the hart.
use Prim.Native.Nat.{bit_and}
use systemrs.Base.{ℕ, ◌/◌, Bool, true, false, Option, none, some, ◌==◌, arith}
use systemrs.Base.Word.{as_u32, as_u32-lt, bit_not, wrapping_add, ◌>>>◌}
use systemrs.Hart.{
  Bus, Csrs, HartState, Trap, get_reg, set_reg, csr_read, csr_write, csr_value, csr_op, do_write,
  apply_mret, take_trap, cause, is_set,
}
use systemrs.Hart.Decode
use systemrs.Hart.Decode.Fields.{imm_u-mod, rs1-mod}
use systemrs.Hart.Exec
use systemrs.Hart.Exec.{
  Outcome, load_value, write_back, branch, load, store, system, step, load_len, store_len,
}
use systemrs.Hart.Bounds.{
  IsWord, AllSome, IsCsrs, IsHart, IsWordBus, if_both, get_reg-IsWord, set_reg-IsRegs,
  bit_and-IsWord, bit_or-IsWord, op-IsWord, op_imm-IsWord,
}

csr_read-IsWord : (csr : Csrs) (addr : ℕ) → IsCsrs csr → IsWord (csr_read csr addr)
unfolding csr_read
csr_read-IsWord csr addr c = if_both IsWord (addr == 0x300) c.mstatus_word (
    if_both IsWord (addr == 0x304) c.mie_word (
      if_both IsWord (addr == 0x305) c.mtvec_word (
        if_both IsWord (addr == 0x340) c.mscratch_word (
          if_both IsWord (addr == 0x341) c.mepc_word (
            if_both IsWord (addr == 0x342) c.mcause_word
              (if_both IsWord (addr == 0x344) c.mip_word (omega arith)))))))

csr_write-IsCsrs : (csr : Csrs) (addr v : ℕ) → IsCsrs csr → IsWord v → IsCsrs (csr_write csr addr v)
unfolding csr_write
csr_write-IsCsrs csr addr v c w = if_both IsCsrs (addr == 0x300) (ground arith) (
    if_both IsCsrs (addr == 0x304) (ground arith) (
      if_both IsCsrs (addr == 0x305) (ground arith) (
        if_both IsCsrs (addr == 0x340) (ground arith) (
          if_both IsCsrs (addr == 0x341) (ground arith)
            (if_both IsCsrs (addr == 0x342) (ground arith) c)))))

csr_value-IsWord :
    (f3 old a imm : ℕ) → IsWord old → IsWord a → IsWord imm → IsWord (csr_value f3 old a imm)
unfolding csr_value
csr_value-IsWord f3 old a imm ho ha hi = if_both IsWord (f3 == 1) ha (
    if_both IsWord (f3 == 2) (bit_or-IsWord old a ho ha) (
      if_both IsWord (f3 == 3) (bit_and-IsWord old (bit_not a) ho) (
        if_both IsWord (f3 == 5) hi (
          if_both IsWord (f3 == 6) (bit_or-IsWord old imm ho hi)
            (if_both IsWord (f3 == 7) (bit_and-IsWord old (bit_not imm) ho) ho)))))

cause-IsWord : (trap : Trap) → IsWord (cause trap)
unfolding cause
cause-IsWord trap = ground arith

module _ (st : HartState) (h : IsHart st) where
  csr_op-IsHart :
      (f3 addr field a rd : ℕ) → IsWord field → IsWord a → IsHart (csr_op st f3 addr field a rd)
  unfolding csr_op
  csr_op-IsHart f3 addr field a rd hf ha =
      let old = csr_read-IsWord st.csr addr h.csr_ok in
      record {
        regs_ok = set_reg-IsRegs st.regs rd _ h.regs_ok old;
        pc_word = h.pc_word;
        csr_ok =
            if_both IsCsrs (do_write f3 field)
              (csr_write-IsCsrs st.csr addr _ h.csr_ok (csr_value-IsWord f3 _ a field old ha hf))
              h.csr_ok;
      }

  apply_mret-IsCsrs : IsCsrs (apply_mret st.csr)
  unfolding apply_mret
  apply_mret-IsCsrs =
      let c = h.csr_ok in
      let status =
        if_both IsWord (is_set st.csr.mstatus 0x80)
          (bit_or-IsWord st.csr.mstatus 8 c.mstatus_word (omega arith))
          (bit_and-IsWord st.csr.mstatus (bit_not 8) c.mstatus_word) in
      record {
        mstatus_word = bit_or-IsWord _ 0x80 status (omega arith);
        mie_word = c.mie_word;
        mip_word = c.mip_word;
        mtvec_word = c.mtvec_word;
        mepc_word = c.mepc_word;
        mcause_word = c.mcause_word;
        mscratch_word = c.mscratch_word;
      }

  pub take_trap-IsHart : (trap : Trap) → IsHart (take_trap st trap)
  unfolding take_trap
  take_trap-IsHart trap =
      let c = h.csr_ok in
      let status =
        if_both IsWord (is_set st.csr.mstatus 8)
          (bit_or-IsWord st.csr.mstatus 0x80 c.mstatus_word (omega arith))
          (bit_and-IsWord st.csr.mstatus (bit_not 0x80) c.mstatus_word) in
      record {
        regs_ok = h.regs_ok;
        pc_word = bit_and-IsWord st.csr.mtvec (bit_not 3) c.mtvec_word;
        csr_ok = record {
          mstatus_word = bit_or-IsWord _ 0x1800 (bit_and-IsWord _ (bit_not 8) status) (omega arith);
          mie_word = c.mie_word;
          mip_word = c.mip_word;
          mtvec_word = c.mtvec_word;
          mepc_word = h.pc_word;
          mcause_word = cause-IsWord trap;
          mscratch_word = c.mscratch_word;
        };
      }

  next_pc-IsHart : (pc : ℕ) → IsWord pc → IsHart (record st { pc = pc })
  next_pc-IsHart pc w = record { regs_ok = h.regs_ok; pc_word = w; csr_ok = h.csr_ok }

  commit-IsHart :
      (rd v pc : ℕ)
      → IsWord v
      → IsWord pc
      → IsHart (record st { regs = set_reg st.regs rd v; pc = pc })
  commit-IsHart rd v pc hv w = record {
    regs_ok = set_reg-IsRegs st.regs rd v h.regs_ok hv;
    pc_word = w;
    csr_ok = h.csr_ok;
  }

load_value-IsWord : (f3 raw : ℕ) → IsWord raw → IsWord (load_value f3 raw)
unfolding load_value
load_value-IsWord f3 raw h =
    if_both IsWord (f3 == 0) (as_u32-lt _) (if_both IsWord (f3 == 1) (as_u32-lt _) h)

module _ {ℓ} {S : Type ℓ} (bus : Bus S) (words : IsWordBus bus) where
  abbrev Kept : Outcome bus → Type 0
  Kept o = IsHart o.1

  module _ (s : S) (st : HartState) (inst : ℕ) (h : IsHart st) where
    write_back-Kept :
        (pc : ℕ) (v : Option ℕ)
        → IsWord pc
        → AllSome IsWord v
        → Kept (write_back bus s st inst pc v)
    unfolding write_back
    write_back-Kept pc none w p = h
    write_back-Kept pc (some v) w p = commit-IsHart st h _ v pc p w

    branch-Kept : (pc : ℕ) (t : Option Bool) → IsWord pc → Kept (branch bus s st inst pc t)
    unfolding branch
    branch-Kept pc none w = h
    branch-Kept pc (some true) w = next_pc-IsHart st h _ (omega arith)
    branch-Kept pc (some false) w = next_pc-IsHart st h _ w

    load-Kept : (pc a : ℕ) (len : Option ℕ) → IsWord pc → Kept (load bus s st inst pc a len)
    unfolding load
    load-Kept pc a none w = h
    load-Kept pc a (some len) w =
        let addr = wrapping_add a (as_u32 (Decode.imm_i inst)) in
        loaded-Kept pc w (bus.read s addr len) (words s addr len)
      where
        loaded-Kept :
            (pc : ℕ)
            → IsWord pc
            → (r : S × Option ℕ) → AllSome IsWord r.1
            → Kept (Exec.loaded bus st inst pc r)
        loaded-Kept pc w (s', none) p = h
        loaded-Kept pc w (s', some raw) p =
            commit-IsHart st h _ _ pc (load_value-IsWord (Decode.funct3 inst) raw p) w

    store-Kept : (pc a b : ℕ) (len : Option ℕ) → IsWord pc → Kept (store bus s st inst pc a b len)
    unfolding store
    store-Kept pc a b none w = h
    store-Kept pc a b (some len) w =
        stored-Kept (bus.write s (wrapping_add a (as_u32 (Decode.imm_s inst))) b len)
      where
        stored-Kept : (r : S × Bool) → Kept (Exec.stored bus st pc r)
        stored-Kept (s', true) = next_pc-IsHart st h pc w
        stored-Kept (s', false) = h

    system-Kept : (pc a : ℕ) → IsWord pc → IsWord a → Kept (system bus s st inst pc a)
    unfolding system
    system-Kept pc a w ha =
        let csr_addr = bit_and (inst / 1048576) 0xfff in
        let f3 = Decode.funct3 inst in
        if_both Kept (f3 == 0)
          (if_both Kept (csr_addr == 0) h (
            if_both Kept (csr_addr == 1) h (
              if_both Kept (csr_addr == 0x302)
                (record {
                  regs_ok = h.regs_ok;
                  pc_word = h.csr_ok.mepc_word;
                  csr_ok = apply_mret-IsCsrs st h;
                })
                (if_both Kept (csr_addr == 0x105) (next_pc-IsHart st h pc w) h))))
          (if_both Kept (f3 == 4) h (
            next_pc-IsHart (csr_op st f3 csr_addr (Decode.rs1 inst) a (Decode.rd inst))
              (csr_op-IsHart st h f3 csr_addr (Decode.rs1 inst) a (Decode.rd inst)
                (omega (arith, rs1-mod inst)) ha)
              pc w))

  -- On a bus that reads words, every instruction, whatever its result, leaves a hart of 32 registers
  -- and the control registers in which each value is below 2 ^ 32 and register zero is zero.
  pub step-IsHart : (s : S) (st : HartState) (inst : ℕ) → IsHart st → IsHart (step bus s st inst).1
  unfolding step
  step-IsHart s st inst h =
      let op = Decode.opcode inst in
      let f3 = Decode.funct3 inst in
      let f7 = Decode.funct7 inst in
      let pc : IsWord (wrapping_add st.pc 4) = omega arith in
      let a = get_reg-IsWord st.regs (Decode.rs1 inst) h.regs_ok.words in
      let b = get_reg-IsWord st.regs (Decode.rs2 inst) h.regs_ok.words in
      if_both Kept (op == 0x37)
        (write_back-Kept s st inst h _ (some (Decode.imm_u inst)) pc
          (omega (arith, imm_u-mod inst)))
        (if_both Kept (op == 0x17)
          (write_back-Kept s st inst h _ (some (wrapping_add st.pc (Decode.imm_u inst))) pc
            (omega arith))
          (if_both Kept (op == 0x6f)
            (commit-IsHart st h _ _ (wrapping_add st.pc (as_u32 (Decode.imm_j inst))) pc
              (omega arith))
            (if_both Kept (op == 0x67)
              (commit-IsHart st h _ _ _ pc (
                bit_and-IsWord
                  (wrapping_add (get_reg st.regs (Decode.rs1 inst)) (as_u32 (Decode.imm_i inst)))
                  (bit_not 1) (omega arith)))
              (if_both Kept (op == 0x63) (branch-Kept s st inst h _ _ pc) (
                if_both Kept (op == 0x03) (load-Kept s st inst h _ _ _ pc) (
                  if_both Kept (op == 0x23) (store-Kept s st inst h _ _ _ _ pc) (
                    if_both Kept (op == 0x13)
                      (write_back-Kept s st inst h _ _ pc
                        (op_imm-IsWord f3 f7 (bit_and (inst >>> 20) 0x1f) _ (Decode.imm_i inst) a))
                      (if_both Kept (op == 0x33)
                        (write_back-Kept s st inst h _ _ pc (op-IsWord _ _ a b f3 f7))
                        (if_both Kept (op == 0x0f) (next_pc-IsHart st h _ pc)
                          (if_both Kept (op == 0x73) (system-Kept s st inst h _ _ pc a) h))))))))))
