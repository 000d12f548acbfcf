-- ===== src/Tests/Harts.antt =====
-- The hart of crates/systemrs-examples/src/rv32i.rs at concrete inputs.
use systemrs.Base.{
  ◌+◌, ◌*◌, ◌%◌, [], ◌∷◌, true, false, none, some, ◌≡◌, refl, arith, inl, inr, replicate,
}
use systemrs.Base.Int.{pos, negsuc, ◌+ℤ◌, ◌*ℤ◌}
use systemrs.Base.Word.{as_i32, wrapping_mul}
use systemrs.Tlm.Memory.{Memory}
use systemrs.Hart.{Trap, new}
use systemrs.Hart.Alu.{mulhu, mulh, mulhsu, div_s, rem_s, div_u, rem_u}
use systemrs.Hart.Alu.Arithmetic.{mul_halves}
use systemrs.Hart.Alu.Division.{IsDivision, IsUnsignedDivision, division}
use systemrs.Hart.Asm.Roundtrip.{Format, Reads, encode, encode-Reads}
use systemrs.Hart.Bounds.{IsHart}
use systemrs.Hart.Bounds.Instructions.{step-IsHart}
use systemrs.Hart.Exec.{step}
use systemrs.Hart.Exec.Precise.{Precise, step-Precise}
use systemrs.Hart.Handlers.{Resumed, mret-take_trap}
use systemrs.Hart.Run.{run_hart}
use systemrs.Hart.Run.InMemory.{Summed, memory, run-Summed}
use systemrs.Hart.Socket.{read, write}
use systemrs.Hart.Socket.OverMemory.{memory_transport, memory_bus, Width, load-store}
use systemrs.Hart.Soc.{HartIrqs}
use systemrs.Hart.Soc.Interrupts.{Taken, soc_round-Taken}
use systemrs.Irq.{IrqController, IrqLine, pending}
use systemrs.Hart.Socket.Words.{socket_bus-IsWordBus}
use systemrs.Irq.Levels.{Run, set_all, set_all-Run}

abbrev ram : Memory
ram = record { storage = replicate 16 0; latency = 5 }

encode-Reads_example :
    Reads (Format.bra 0x63 4 2 3 (negsuc 7)) (encode (Format.bra 0x63 4 2 3 (negsuc 7)))
encode-Reads_example = encode-Reads (Format.bra 0x63 4 2 3 (negsuc 7)) (omega arith)

mul_halves_example :
    (mulhu 0xffff_ffff 2 * 4294967296 + wrapping_mul 0xffff_ffff 2 ≡ 0xffff_ffff * 2)
    × (as_i32 (mulh (as_i32 0xffff_ffff) (as_i32 2)) *ℤ pos 4294967296
          +ℤ pos (wrapping_mul 0xffff_ffff 2)
        ≡ as_i32 0xffff_ffff *ℤ as_i32 2)
    × (as_i32 (mulhsu (as_i32 0xffff_ffff) 2) *ℤ pos 4294967296 +ℤ pos (wrapping_mul 0xffff_ffff 2)
        ≡ as_i32 0xffff_ffff *ℤ pos 2)
mul_halves_example = mul_halves 0xffff_ffff 2 (omega arith) (omega arith)

division_example :
    IsDivision 0xffff_fff9 2
      (div_s (as_i32 0xffff_fff9) (as_i32 2))
      (rem_s (as_i32 0xffff_fff9) (as_i32 2))
    × IsUnsignedDivision 0xffff_fff9 2 (div_u 0xffff_fff9 2) (rem_u 0xffff_fff9 2)
division_example = division 0xffff_fff9 2 (omega arith) (omega arith)

zeros : IsHart (new 0x100)
unfolding new
zeros = record {
  regs_ok = record { count = refl; words = omega arith; zero_reg = refl };
  pc_word = omega arith;
  csr_ok = omega arith;
}

step-IsHart_example : IsHart (step memory_bus ram (new 0x100) 0x0000_0103).1
step-IsHart_example =
    step-IsHart memory_bus (socket_bus-IsWordBus memory_transport) ram (new 0x100) 0x0000_0103 zeros

step-Precise_example :
    Precise memory_bus
      (new 0x100)
      (step memory_bus ram (new 0x100) 0x0ff0_0103).1
      (step memory_bus ram (new 0x100) 0x0ff0_0103).2
step-Precise_example = step-Precise memory_bus ram (new 0x100) 0x0ff0_0103

mret-take_trap_example : Resumed memory_bus ram (new 0x100) Trap.machine_timer 3
unfolding new
mret-take_trap_example =
    mret-take_trap memory_bus ram (new 0x100) Trap.machine_timer 3 (omega arith) (omega arith)

load-store_example :
    let (m', done) = write memory_transport ram 4 0x1234_5678 2 in
    (done ≡ true)
    × (read memory_transport m' 4 2 ≡ (m', some (0x1234_5678 % 65536)))
    × ((read memory_transport m' 6 4).1 ≡ (read memory_transport ram 6 4).1)
load-store_example = load-store ram 4 0x1234_5678 Width.half refl 6 4 (inr (omega arith))

run-Summed_example :
    Summed
      (replicate 300 0)
      7
      5
      10
      100
      (omega arith)
      (omega arith)
      (omega arith)
      (omega arith)
      (omega arith)
      (run_hart memory_bus 5
        (3 * 10 + 5 + 2)
        (memory
          (replicate 300 0)
          7
          5
          10
          100
          (omega arith)
          (omega arith)
          (omega arith)
          (omega arith)
          (omega arith))
        (new 0))
      40
run-Summed_example =
    run-Summed (replicate 300 0) 7 5 10 100 (omega arith) (omega arith) (omega arith) (omega arith)
      (omega arith) 2 40 (omega arith) (inl (omega arith))

abbrev lines : IrqController
lines = record { levels = false ∷ true ∷ []; wake = 4 }

abbrev timer_line : IrqLine
timer_line = record { index = 1; changed = 6 }

abbrev wired : HartIrqs
wired = record { timer = some timer_line; software = none; external = none }

soc_round-Taken_example : Taken memory_bus (λ m. lines) wired 5 4 ram (new 0x100) false true false
unfolding pending
soc_round-Taken_example =
    soc_round-Taken memory_bus (λ m. lines) wired 5 4 ram (new 0x100) false true false refl refl
      refl

set_all-Run_example :
    Run lines
      ((timer_line, false) ∷ (timer_line, true) ∷ [])
      1
      true
      (set_all ((timer_line, false) ∷ (timer_line, true) ∷ []) lines)
set_all-Run_example =
    set_all-Run ((timer_line, false) ∷ (timer_line, true) ∷ []) lines 1 true (omega arith) refl
