-- ===== src/Hart/Exec/Precise.antt =====
-- Traps in crates/systemrs-examples/src/rv32i.rs are precise.
use Prim.Native.Nat.{bit_and}
use systemrs.Base.{ℕ, ◌/◌, Bool, true, false, Option, none, some, ◌==◌, ◌≡◌, refl}
use systemrs.Base.Word.{wrapping_add, as_u32}
use systemrs.Hart.{Bus, HartState, StepResult}
use systemrs.Hart.Decode
use systemrs.Hart.Exec
use systemrs.Hart.Exec.{Outcome, write_back, branch, load, store, system, step}
use systemrs.Hart.Bounds.{if_both}

module _ {ℓ} {S : Type ℓ} (bus : Bus S) where
  -- What a result says of the hart before an instruction and the one after it.
  abbrev pub Precise : HartState → HartState → StepResult → Type 0
  Precise st st' (StepResult.trapped t) = st' ≡ st
  Precise st st' StepResult.wait_for_interrupt = st' ≡ record st { pc = wrapping_add st.pc 4 }
  Precise st st' StepResult.next = Unit {0}

  abbrev OutcomePrecise : HartState → Outcome bus → Type 0
  OutcomePrecise st (s, st', result) = Precise st st' result

  module _ (s : S) (st : HartState) (inst : ℕ) where
    abbrev P : Outcome bus → Type 0
    P = OutcomePrecise st

    write_back_precise : (pc : ℕ) (v : Option ℕ) → P (write_back bus s st inst pc v)
    unfolding write_back
    write_back_precise pc none = refl
    write_back_precise pc (some v) = tt

    branch_precise : (pc : ℕ) (t : Option Bool) → P (branch bus s st inst pc t)
    unfolding branch
    branch_precise pc none = refl
    branch_precise pc (some t) = tt

    load_precise : (pc a : ℕ) (len : Option ℕ) → P (load bus s st inst pc a len)
    unfolding load
    load_precise pc a none = refl
    load_precise pc a (some len) =
        loaded (bus.read s (wrapping_add a (as_u32 (Decode.imm_i inst))) len)
      where
        loaded : (r : S × Option ℕ) → P (Exec.loaded bus st inst pc r)
        loaded (s', none) = refl
        loaded (s', some raw) = tt

    store_precise : (pc a b : ℕ) (len : Option ℕ) → P (store bus s st inst pc a b len)
    unfolding store
    store_precise pc a b none = refl
    store_precise pc a b (some len) =
        stored (bus.write s (wrapping_add a (as_u32 (Decode.imm_s inst))) b len)
      where
        stored : (r : S × Bool) → P (Exec.stored bus st pc r)
        stored (s', true) = tt
        stored (s', false) = refl

    system_precise : (a : ℕ) → P (system bus s st inst (wrapping_add st.pc 4) a)
    unfolding system
    system_precise a =
        let csr_addr = bit_and (inst / 1048576) 0xfff in
        if_both P (Decode.funct3 inst == 0)
          (if_both P (csr_addr == 0) refl (
            if_both P (csr_addr == 1) refl
              (if_both P (csr_addr == 0x302) tt (if_both P (csr_addr == 0x105) refl refl))))
          (if_both P (Decode.funct3 inst == 4) refl tt)

  -- An instruction that traps leaves the hart as it was, its program counter included, so that the
  -- handler finds the address of the instruction; one that waits for an interrupt only steps over
  -- itself. This holds on every bus, whatever it answers.
  pub step-Precise :
      (s : S) (st : HartState) (inst : ℕ) → Precise st (step bus s st inst).1 (step bus s st inst).2
  unfolding step
  step-Precise s st inst =
      let op = Decode.opcode inst in
      let pc = wrapping_add st.pc 4 in
      let P = OutcomePrecise st in
      if_both P (op == 0x37) (write_back_precise s st inst pc (some (Decode.imm_u inst))) (
        if_both P (op == 0x17)
          (write_back_precise s st inst pc (some (wrapping_add st.pc (Decode.imm_u inst))))
          (if_both P (op == 0x6f) tt (
            if_both P (op == 0x67) tt (
              if_both P (op == 0x63) (branch_precise s st inst _ _) (
                if_both P (op == 0x03) (load_precise s st inst _ _ _) (
                  if_both P (op == 0x23) (store_precise s st inst _ _ _ _) (
                    if_both P (op == 0x13) (write_back_precise s st inst _ _) (
                      if_both P (op == 0x33) (write_back_precise s st inst _ _) (
                        if_both P (op == 0x0f) tt
                          (if_both P (op == 0x73) (system_precise s st inst _) refl))))))))))
