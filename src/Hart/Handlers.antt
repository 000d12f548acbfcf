-- ===== src/Hart/Handlers.antt =====
-- Traps of crates/systemrs-examples/src/rv32i.rs, from their entry to the return.
use Prim.Native.Nat.{bit_and, bit_or}
use systemrs.Base.{
  ℕ, ◌*◌, ◌/◌, ◌<◌, not, ◌==◌, ◌||◌, if◌then◌else◌, ◌≡◌, refl, arith, ==→eq, Bool-cases, inl, inr,
}
use systemrs.Base.Bits.{bit_and_high_mask}
use systemrs.Base.Digits.{digit, digit-bit_and, digit-bit_or, digit-lt, all_below, all_below-lt}
use systemrs.Base.Word.{bit_not}
use systemrs.Hart.{Bus, Csrs, HartState, StepResult, Trap, take_trap, apply_mret, is_set, cause}
use systemrs.Hart.Exec.{step}
use systemrs.Hart.Asm.{mret}

-- The digits of the masks.
module _ (k : ℕ) (h : k < 32) where
  pub mie-digit : digit k 8 ≡ (if k == 3 then 1 else 0)
  unfolding digit all_below
  mie-digit = ==→eq _ _ (all_below-lt 32 (λ k. digit k 8 == (if k == 3 then 1 else 0)) k refl h)

  pub mpie-digit : digit k 128 ≡ (if k == 7 then 1 else 0)
  unfolding digit all_below
  mpie-digit = ==→eq _ _ (all_below-lt 32 (λ k. digit k 128 == (if k == 7 then 1 else 0)) k refl h)

  mpp-digit : digit k 6144 ≡ (if k == 11 || k == 12 then 1 else 0)
  unfolding digit all_below
  mpp-digit =
      ==→eq _ _
        (all_below-lt 32 (λ k. digit k 6144 == (if k == 11 || k == 12 then 1 else 0)) k refl h)

  no_mie-digit : digit k (bit_not 8) ≡ (if k == 3 then 0 else 1)
  unfolding digit all_below
  no_mie-digit =
      ==→eq _ _ (all_below-lt 32 (λ k. digit k (bit_not 8) == (if k == 3 then 0 else 1)) k refl h)

  no_mpie-digit : digit k (bit_not 128) ≡ (if k == 7 then 0 else 1)
  unfolding digit all_below
  no_mpie-digit =
      ==→eq _ _ (all_below-lt 32 (λ k. digit k (bit_not 128) == (if k == 7 then 0 else 1)) k refl h)

pub mie-is_set : (w : ℕ) → is_set w 8 ≡ not (digit 3 w == 0)
unfolding digit
mie-is_set w = ground (arith, bit_and_high_mask 3 1 w)

pub mpie-is_set : (w : ℕ) → is_set w 128 ≡ not (digit 7 w == 0)
unfolding digit
mpie-is_set w = ground (arith, bit_and_high_mask 7 1 w)

-- The digits of a status in which two bits are set, after one is cleared or set.
module _ (m k : ℕ) (h : k < 32) where
  abbrev with_mpie : ℕ
  with_mpie = if is_set m 8 then bit_or m 128 else bit_and m (bit_not 128)

  with_mpie-digit : digit k with_mpie ≡ (if k == 7 then digit 3 m else digit k m)
  with_mpie-digit = elim (Bool-cases (is_set m 8)) [
    | inl on ↦
        rw (on, digit-bit_or k m 128, mpie-digit k h)
          (ground (arith, on, mie-is_set m, digit-lt k m, digit-lt 3 m))
    | inr off ↦
        rw (off, digit-bit_and k m (bit_not 128), no_mpie-digit k h)
          (ground (arith, off, mie-is_set m, digit-lt k m, digit-lt 3 m))
  ]

  abbrev with_mie : ℕ
  with_mie = if is_set m 128 then bit_or m 8 else bit_and m (bit_not 8)

  with_mie-digit : digit k with_mie ≡ (if k == 3 then digit 7 m else digit k m)
  with_mie-digit = elim (Bool-cases (is_set m 128)) [
    | inl on ↦
        rw (on, digit-bit_or k m 8, mie-digit k h)
          (ground (arith, on, mpie-is_set m, digit-lt k m, digit-lt 7 m))
    | inr off ↦
        rw (off, digit-bit_and k m (bit_not 8), no_mie-digit k h)
          (ground (arith, off, mpie-is_set m, digit-lt k m, digit-lt 7 m))
  ]

  masked-digit :
      digit k (bit_or (bit_and m (bit_not 8)) 6144)
      ≡ (if k == 3 then 0 else if k == 11 || k == 12 then 1 else digit k m)
  masked-digit =
      rw
        (
          digit-bit_or k (bit_and m (bit_not 8)) 6144,
          digit-bit_and k m (bit_not 8),
          no_mie-digit k h,
          mpp-digit k h,
        )
        (ground (arith, digit-lt k m))

-- The status within the handler: interrupts are off, and their former state is kept.
pub entered :
    (st : HartState) (trap : Trap) (k : ℕ)
    → k < 32
    → digit k (take_trap st trap).csr.mstatus ≡ (
        if k == 3
        then 0
        else if k == 7
        then digit 3 st.csr.mstatus
        else if k == 11 || k == 12
        then 1
        else digit k st.csr.mstatus)
unfolding take_trap
entered st trap k h =
    let m = st.csr.mstatus in
    ground (arith, masked-digit (with_mpie m k h) k h, with_mpie-digit m k h)

returned :
    (csr : Csrs) (k : ℕ)
    → k < 32
    → digit k (apply_mret csr).mstatus
      ≡ (if k == 7 then 1 else if k == 3 then digit 7 csr.mstatus else digit k csr.mstatus)
unfolding apply_mret
returned csr k h =
    let m = csr.mstatus in
    rw (digit-bit_or k (with_mie m k h) 128, mpie-digit k h)
      (ground (arith, with_mie-digit m k h, digit-lt k (with_mie m k h)))

apply_mret-same : (csr : Csrs) → apply_mret csr ≡ record csr { mstatus = (apply_mret csr).mstatus }
unfolding apply_mret
apply_mret-same csr = refl

module _ {ℓ} {S : Type ℓ} (bus : Bus S) where
  step-mret :
      (s : S) (st : HartState)
      → step bus s st mret
        ≡ (s, record st { pc = st.csr.mepc; csr = apply_mret st.csr }, StepResult.next)
  unfolding step
  step-mret s st = refl

  -- The hart within the handler and after its MRET, given digit `k` of the status at each of the three
  -- moments.
  abbrev pub Resumed : S → HartState → Trap → ℕ → Type ℓ
  Resumed s st trap k =
      let handler = take_trap st trap in
      let (s', back, result) = step bus s handler mret in
      (handler.pc ≡ st.csr.mtvec / 4 * 4)
      × (handler.csr.mcause ≡ cause trap)
      × (digit 3 handler.csr.mstatus ≡ 0)
      × (s' ≡ s)
      × (result ≡ StepResult.next)
      × (back.pc ≡ st.pc)
      × (back.regs ≡ st.regs)
      × (digit k back.csr.mstatus
          ≡ (if k == 7 || k == 11 || k == 12 then 1 else digit k st.csr.mstatus))
      × (back.csr ≡ record st.csr { mstatus = back.csr.mstatus; mepc = st.pc; mcause = cause trap })

  -- A trap enters the handler at the address in `mtvec`, less its mode bits, with the cause recorded and
  -- interrupts off. If the handler's next instruction is MRET, the hart goes on where it was, with the
  -- same registers and the same interrupt-enable bit; of the control registers only `mepc`, `mcause`
  -- and the bits MPIE and MPP of `mstatus`, which are then set, may have changed.
  pub mret-take_trap :
      (s : S) (st : HartState) (trap : Trap) (k : ℕ)
      → k < 32
      → st.csr.mtvec < 4294967296
      → Resumed s st trap k
  unfolding take_trap
  mret-take_trap s st trap k h word =
      let handler = take_trap st trap in
      rw (step-mret s handler) (
        ground (arith, bit_and_high_mask 2 30 st.csr.mtvec),
        refl,
        entered st trap 3 (omega arith),
        refl,
        refl,
        refl,
        refl,
        ground (
          arith,
          returned handler.csr k h,
          entered st trap k h,
          entered st trap 7,
          digit-lt k st.csr.mstatus,
        ),
        apply_mret-same handler.csr,
      )
