-- ===== src/Hart/Soc/Interrupts.antt =====
-- The interrupts of the machine-mode hart of crates/systemrs-examples/src/rv32i.rs.
use Prim.Native.Nat.{bit_and, max}
use systemrs.Base.{
  ℕ, ◌<◌, Bool, true, false, not, Option, none, some, ◌==◌, ◌&&◌, ◌||◌, ◌≡◌, refl, arith, ◌∙◌,
  if◌then◌else◌, ==→eq,
}
use systemrs.Base.Bits.{bit_and_high_mask}
use systemrs.Base.Digits.{digit, digit-bit_and, digit-bit_or, digit-lt, all_below, all_below-lt}
use systemrs.Irq.{IrqController}
use systemrs.Time.{SimTime}
use systemrs.Hart.{Bus, Csrs, HartState, Trap, take_trap, is_set}
use systemrs.Hart.Handlers.{entered, mie-is_set, mpie-is_set, mie-digit, mpie-digit}
use systemrs.Hart.Soc.{
  HartIrqs, is_pending, or_if, cleared, sample_irqs, pending_interrupt, take_pending, fetched,
  soc_round,
}

meip-digit : (k : ℕ) → k < 32 → digit k 2048 ≡ (if k == 11 then 1 else 0)
unfolding digit all_below
meip-digit k h =
    ==→eq _ _ (all_below-lt 32 (λ k. digit k 2048 == (if k == 11 then 1 else 0)) k refl h)

cleared-mask-digit :
    (k : ℕ) → k < 32 → digit k 0xffff_f777 ≡ (if k == 3 || k == 7 || k == 11 then 0 else 1)
unfolding digit all_below
cleared-mask-digit k h = ==→eq _ _ (
    all_below-lt 32 (λ k. digit k 0xffff_f777 == (if k == 3 || k == 7 || k == 11 then 0 else 1)) k
      refl h)

meip-is_set : (w : ℕ) → is_set w 2048 ≡ not (digit 11 w == 0)
unfolding digit
meip-is_set w = ground (arith, bit_and_high_mask 11 1 w)

abbrev bit_of : Bool → ℕ
bit_of b = if b then 1 else 0

-- The pending bits after sampling are the levels of the lines.
module _ (mip : ℕ) (sw tm ex : Bool) where
  abbrev sampled : ℕ
  sampled = or_if (or_if (or_if (cleared mip) 8 sw) 128 tm) 2048 ex

  or_if-digit :
      (k m bit : ℕ) (on : Bool)
      → digit k (or_if m bit on) ≡ (if on then max (digit k m) (digit k bit) else digit k m)
  or_if-digit k m bit true = digit-bit_or k m bit
  or_if-digit k m bit false = refl

  cleared-digit :
      (k : ℕ)
      → k < 32
      → digit k (cleared mip) ≡ (if k == 3 || k == 7 || k == 11 then 0 else digit k mip)
  cleared-digit k h =
      digit-bit_and k mip 0xffff_f777 ∙ ground (arith, cleared-mask-digit k h, digit-lt k mip)

  sampled-digit :
      (k : ℕ)
      → k < 32
      → digit k sampled ≡ (
          if k == 3
          then bit_of sw
          else if k == 7
          then bit_of tm
          else if k == 11
          then bit_of ex
          else digit k mip)
  sampled-digit k h = ground (
    arith,
    or_if-digit k (or_if (or_if (cleared mip) 8 sw) 128 tm) 2048 ex,
    or_if-digit k (or_if (cleared mip) 8 sw) 128 tm,
    or_if-digit k (cleared mip) 8 sw,
    cleared-digit k h,
    mie-digit k h,
    mpie-digit k h,
    meip-digit k h,
    digit-lt k mip,
  )

-- The interrupt to take: none while they are off; else the first of the external, the software and the
-- timer interrupt whose line is raised and which `mie` enables.
abbrev pub chosen : ℕ → ℕ → Bool → Bool → Bool → Option Trap
chosen mstatus mie sw tm ex =
    if digit 3 mstatus == 0
    then none
    else if ex && digit 11 mie == 1
    then some Trap.machine_external
    else if sw && digit 3 mie == 1
    then some Trap.machine_software
    else if tm && digit 7 mie == 1
    then some Trap.machine_timer
    else none

active-is_set :
    (mip mie bit k : ℕ) (on : Bool)
    → is_set (bit_and mip mie) bit ≡ not (digit k (bit_and mip mie) == 0)
    → digit k mip ≡ bit_of on
    → is_set (bit_and mip mie) bit ≡ (on && digit k mie == 1)
active-is_set mip mie bit k true e d = ground (arith, digit-bit_and k mip mie, digit-lt k mie)
active-is_set mip mie bit k false e d = ground (arith, digit-bit_and k mip mie, digit-lt k mie)

mie-zero : (w : ℕ) → (bit_and w 8 == 0) ≡ (digit 3 w == 0)
unfolding digit
mie-zero w = ground (arith, bit_and_high_mask 3 1 w)

pending-chosen :
    (csr : Csrs) (sw tm ex : Bool)
    → digit 3 csr.mip ≡ bit_of sw
    → digit 7 csr.mip ≡ bit_of tm
    → digit 11 csr.mip ≡ bit_of ex
    → pending_interrupt csr ≡ chosen csr.mstatus csr.mie sw tm ex
unfolding pending_interrupt
pending-chosen csr sw tm ex a b c =
    let active = bit_and csr.mip csr.mie in
    rw
      (
        mie-zero csr.mstatus,
        active-is_set csr.mip csr.mie 2048 11 ex (meip-is_set active) c,
        active-is_set csr.mip csr.mie 8 3 sw (mie-is_set active) a,
        active-is_set csr.mip csr.mie 128 7 tm (mpie-is_set active) b,
      )
      refl

masked : (st : HartState) (trap : Trap) → pending_interrupt (take_trap st trap).csr ≡ none
unfolding pending_interrupt
masked st trap = rw (mie-zero (take_trap st trap).csr.mstatus, entered st trap 3 (omega arith)) refl

module _ {ℓ} {S : Type ℓ} (bus : Bus S) (lines : S → IrqController) (irqs : HartIrqs)
    (cycle : SimTime) (wake : ℕ) where
  -- The start of a round: what it samples, which interrupt it takes, and what it fetches then.
  abbrev pub Taken : S → HartState → Bool → Bool → Bool → Type ℓ
  Taken s st sw tm ex =
      (csr : Csrs) × (sample_irqs (lines s) st.csr irqs ≡ some csr)
      × (csr ≡ record st.csr { mip = csr.mip })
      × (let st' =
            take_pending (record st { csr = csr }) (chosen st.csr.mstatus st.csr.mie sw tm ex) in
          (soc_round bus lines irqs cycle wake s st
            ≡ fetched bus lines irqs cycle wake st' (bus.read s st'.pc 4)))
      × ((trap : Trap) → pending_interrupt (take_trap (record st { csr = csr }) trap).csr ≡ none)

  round-start :
      (s : S) (st : HartState) (csr : Csrs) (p : Option Trap)
      → sample_irqs (lines s) st.csr irqs ≡ some csr
      → pending_interrupt csr ≡ p
      → soc_round bus lines irqs cycle wake s st ≡ (
          let st' = take_pending (record st { csr = csr }) p in
          fetched bus lines irqs cycle wake st' (bus.read s st'.pc 4))
  unfolding soc_round
  round-start s st csr p e g = rw (e, g) refl

  -- With the three lines at known levels, a round of the hart takes the external, the software or the
  -- timer interrupt, the first of these whose line is raised and that is enabled, if interrupts are on,
  -- and no interrupt otherwise; it then fetches at the handler's address, or where the hart was. Sampling
  -- changes the pending bits only, and within a handler nothing is taken until interrupts are turned on.
  pub soc_round-Taken :
      (s : S) (st : HartState) (sw tm ex : Bool)
      → is_pending (lines s) irqs.software ≡ some sw
      → is_pending (lines s) irqs.timer ≡ some tm
      → is_pending (lines s) irqs.external ≡ some ex
      → Taken s st sw tm ex
  unfolding sample_irqs
  soc_round-Taken s st sw tm ex a b c =
      let csr = record st.csr { mip = sampled st.csr.mip sw tm ex } in
      let chosen_now =
        pending-chosen csr sw tm ex (sampled-digit st.csr.mip sw tm ex 3 (omega arith))
          (sampled-digit st.csr.mip sw tm ex 7 (omega arith))
          (sampled-digit st.csr.mip sw tm ex 11 (omega arith)) in
      let read_lines : sample_irqs (lines s) st.csr irqs ≡ some csr = rw (a, b, c) refl in
      (
        csr,
        read_lines,
        refl,
        round-start s st csr _ read_lines chosen_now,
        λ trap. masked (record st { csr = csr }) trap,
      )
