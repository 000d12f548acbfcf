-- ===== src/Hart/Asm.antt =====
-- crates/systemrs-examples/src/rv32i.rs, module `asm`: the encoders, and the bundled program.
pub mod Encoding
pub mod Roundtrip
use Prim.Native.Nat.{bit_and, bit_or}
use systemrs.Base.{ℕ, ◌+◌, ◌%◌, ◌/◌, List, [], ◌∷◌, ◌++◌}
use systemrs.Base.Int.{ℤ, pos, negsuc}
use systemrs.Base.Word.{◌<<<◌, ◌>>>◌, as_i32, as_u32, to_le_bytes}

unfoldable pub r : ℕ → ℕ → ℕ → ℕ → ℕ → ℕ → ℕ
r opcode rd funct3 rs1 rs2 funct7 =
    bit_or
      (bit_or (bit_or (bit_or (bit_or opcode (rd <<< 7)) (funct3 <<< 12)) (rs1 <<< 15))
        (rs2 <<< 20))
      (funct7 <<< 25)

unfoldable pub i : ℕ → ℕ → ℕ → ℕ → ℤ → ℕ
i opcode rd funct3 rs1 imm =
    let imm = bit_and (as_u32 imm) 0xfff in
    bit_or (bit_or (bit_or (bit_or opcode (rd <<< 7)) (funct3 <<< 12)) (rs1 <<< 15)) (imm <<< 20)

unfoldable pub s : ℕ → ℕ → ℕ → ℕ → ℤ → ℕ
s opcode funct3 rs1 rs2 imm =
    let imm = bit_and (as_u32 imm) 0xfff in
    bit_or
      (bit_or
        (bit_or (bit_or (bit_or opcode (bit_and imm 0x1f <<< 7)) (funct3 <<< 12)) (rs1 <<< 15))
        (rs2 <<< 20))
      (bit_and (imm >>> 5) 0x7f <<< 25)

unfoldable pub b : ℕ → ℕ → ℕ → ℕ → ℤ → ℕ
b opcode funct3 rs1 rs2 imm =
    let imm = as_u32 imm in
    bit_or
      (bit_or
        (bit_or
          (bit_or
            (bit_or
              (bit_or (bit_or opcode (bit_and (imm >>> 11) 1 <<< 7))
                (bit_and (imm >>> 1) 0xf <<< 8))
              (funct3 <<< 12))
            (rs1 <<< 15))
          (rs2 <<< 20))
        (bit_and (imm >>> 5) 0x3f <<< 25))
      (bit_and (imm >>> 12) 1 <<< 31)

unfoldable pub u : ℕ → ℕ → ℕ → ℕ
u opcode rd imm = bit_or (bit_or opcode (rd <<< 7)) (bit_and imm 0xffff_f000)

unfoldable pub j : ℕ → ℕ → ℤ → ℕ
j opcode rd imm =
    let imm = as_u32 imm in
    bit_or
      (bit_or
        (bit_or (bit_or (bit_or opcode (rd <<< 7)) (bit_and (imm >>> 12) 0xff <<< 12))
          (bit_and (imm >>> 11) 1 <<< 20))
        (bit_and (imm >>> 1) 0x3ff <<< 21))
      (bit_and (imm >>> 20) 1 <<< 31)

unfoldable pub addi : ℕ → ℕ → ℤ → ℕ
unfolding i
addi rd rs1 imm = i 0x13 rd 0 rs1 imm

unfoldable pub ori : ℕ → ℕ → ℤ → ℕ
unfolding i
ori rd rs1 imm = i 0x13 rd 6 rs1 imm

unfoldable pub andi : ℕ → ℕ → ℤ → ℕ
unfolding i
andi rd rs1 imm = i 0x13 rd 7 rs1 imm

unfoldable pub add : ℕ → ℕ → ℕ → ℕ
unfolding r
add rd rs1 rs2 = r 0x33 rd 0 rs1 rs2 0x00

unfoldable pub sub : ℕ → ℕ → ℕ → ℕ
unfolding r
sub rd rs1 rs2 = r 0x33 rd 0 rs1 rs2 0x20

unfoldable pub and : ℕ → ℕ → ℕ → ℕ
unfolding r
and rd rs1 rs2 = r 0x33 rd 7 rs1 rs2 0x00

unfoldable pub or : ℕ → ℕ → ℕ → ℕ
unfolding r
or rd rs1 rs2 = r 0x33 rd 6 rs1 rs2 0x00

unfoldable pub xor : ℕ → ℕ → ℕ → ℕ
unfolding r
xor rd rs1 rs2 = r 0x33 rd 4 rs1 rs2 0x00

unfoldable pub slli : ℕ → ℕ → ℕ → ℕ
unfolding i
slli rd rs1 shamt = i 0x13 rd 1 rs1 (as_i32 shamt)

unfoldable pub mul : ℕ → ℕ → ℕ → ℕ
unfolding r
mul rd rs1 rs2 = r 0x33 rd 0 rs1 rs2 0x01

unfoldable pub mulh : ℕ → ℕ → ℕ → ℕ
unfolding r
mulh rd rs1 rs2 = r 0x33 rd 1 rs1 rs2 0x01

unfoldable pub mulhsu : ℕ → ℕ → ℕ → ℕ
unfolding r
mulhsu rd rs1 rs2 = r 0x33 rd 2 rs1 rs2 0x01

unfoldable pub mulhu : ℕ → ℕ → ℕ → ℕ
unfolding r
mulhu rd rs1 rs2 = r 0x33 rd 3 rs1 rs2 0x01

unfoldable pub div : ℕ → ℕ → ℕ → ℕ
unfolding r
div rd rs1 rs2 = r 0x33 rd 4 rs1 rs2 0x01

unfoldable pub divu : ℕ → ℕ → ℕ → ℕ
unfolding r
divu rd rs1 rs2 = r 0x33 rd 5 rs1 rs2 0x01

unfoldable pub rem : ℕ → ℕ → ℕ → ℕ
unfolding r
rem rd rs1 rs2 = r 0x33 rd 6 rs1 rs2 0x01

unfoldable pub remu : ℕ → ℕ → ℕ → ℕ
unfolding r
remu rd rs1 rs2 = r 0x33 rd 7 rs1 rs2 0x01

unfoldable pub lui : ℕ → ℕ → ℕ
unfolding u
lui rd imm = u 0x37 rd imm

unfoldable pub auipc : ℕ → ℕ → ℕ
unfolding u
auipc rd imm = u 0x17 rd imm

unfoldable pub jal : ℕ → ℤ → ℕ
unfolding j
jal rd offset = j 0x6f rd offset

unfoldable pub jalr : ℕ → ℕ → ℤ → ℕ
unfolding i
jalr rd rs1 imm = i 0x67 rd 0 rs1 imm

unfoldable pub beq : ℕ → ℕ → ℤ → ℕ
unfolding b
beq rs1 rs2 offset = b 0x63 0 rs1 rs2 offset

unfoldable pub bne : ℕ → ℕ → ℤ → ℕ
unfolding b
bne rs1 rs2 offset = b 0x63 1 rs1 rs2 offset

unfoldable pub blt : ℕ → ℕ → ℤ → ℕ
unfolding b
blt rs1 rs2 offset = b 0x63 4 rs1 rs2 offset

unfoldable pub bge : ℕ → ℕ → ℤ → ℕ
unfolding b
bge rs1 rs2 offset = b 0x63 5 rs1 rs2 offset

unfoldable pub lw : ℕ → ℤ → ℕ → ℕ
unfolding i
lw rd offset rs1 = i 0x03 rd 2 rs1 offset

unfoldable pub lbu : ℕ → ℤ → ℕ → ℕ
unfolding i
lbu rd offset rs1 = i 0x03 rd 4 rs1 offset

unfoldable pub sw : ℕ → ℤ → ℕ → ℕ
unfolding s
sw rs2 offset rs1 = s 0x23 2 rs1 rs2 offset

unfoldable pub sb : ℕ → ℤ → ℕ → ℕ
unfolding s
sb rs2 offset rs1 = s 0x23 0 rs1 rs2 offset

unfoldable pub csrrw : ℕ → ℕ → ℕ → ℕ
unfolding i
csrrw rd csr rs1 = i 0x73 rd 1 rs1 (as_i32 csr)

unfoldable pub csrrs : ℕ → ℕ → ℕ → ℕ
unfolding i
csrrs rd csr rs1 = i 0x73 rd 2 rs1 (as_i32 csr)

unfoldable pub csrrc : ℕ → ℕ → ℕ → ℕ
unfolding i
csrrc rd csr rs1 = i 0x73 rd 3 rs1 (as_i32 csr)

unfoldable pub csrrwi : ℕ → ℕ → ℕ → ℕ
unfolding i
csrrwi rd csr uimm = i 0x73 rd 5 uimm (as_i32 csr)

unfoldable pub csrrsi : ℕ → ℕ → ℕ → ℕ
unfolding i
csrrsi rd csr uimm = i 0x73 rd 6 uimm (as_i32 csr)

abbrev pub ecall : ℕ
ecall = 0x0000_0073

abbrev pub ebreak : ℕ
ebreak = 0x0010_0073

abbrev pub mret : ℕ
mret = 0x3020_0073

abbrev pub wfi : ℕ
wfi = 0x1050_0073

unfoldable pub assemble : List ℕ → List ℕ
assemble [] = []
assemble (word ∷ words) = to_le_bytes word ++ assemble words

unfoldable pub sum_program : ℕ → ℕ → List ℕ
unfolding add addi blt sw
sum_program n result_addr =
    addi 1 0 (pos 0)
    ∷ addi 2 0 (pos 1)
    ∷ addi 3 0 (as_i32 (n + 1))
    ∷ add 1 1 2
    ∷ addi 2 2 (pos 1)
    ∷ blt 2 3 (negsuc 7)
    ∷ sw 1 (as_i32 result_addr) 0
    ∷ ecall
    ∷ []

unfoldable pub program_sum_1_to_n : ℕ → ℕ → List ℕ
unfolding sum_program assemble
program_sum_1_to_n n result_addr = assemble (sum_program n result_addr)
