-- ===== src/Hart/Asm/Roundtrip.antt =====
-- Encoding and decoding in crates/systemrs-examples/src/rv32i.rs.
use systemrs.Base.{ℕ, ◌+◌, ◌*◌, ◌/◌, ◌%◌, ◌≤◌, ◌<◌, ◌≡◌, ap, ◌∙◌, arith}
use systemrs.Base.Int.{ℤ, pos, negsuc, pos_part, neg_part}
use systemrs.Base.Word.{as_u32}
use systemrs.Hart.Decode
use systemrs.Hart.Decode.Fields.{
  signed, opcode-mod, rd-mod, funct3-mod, rs1-mod, rs2-mod, funct7-mod, imm_i-signed, imm_s-signed,
  imm_b-signed, imm_j-signed, imm_u-mod,
}
use systemrs.Hart.Asm.{r, i, s, b, u, j}
use systemrs.Hart.Asm.Encoding.{r_sum, i_sum, s_sum, b_sum, u_sum, j_sum}

-- The six formats with their fields: what an encoder is given.
pub data Format : Type 0 where
  reg : (opcode rd funct3 rs1 rs2 funct7 : ℕ) → Format
  imm : (opcode rd funct3 rs1 : ℕ) (imm : ℤ) → Format
  sto : (opcode funct3 rs1 rs2 : ℕ) (imm : ℤ) → Format
  bra : (opcode funct3 rs1 rs2 : ℕ) (offset : ℤ) → Format
  upp : (opcode rd imm : ℕ) → Format
  jmp : (opcode rd : ℕ) (offset : ℤ) → Format

abbrev pub encode : Format → ℕ
encode (Format.reg op rd f3 rs1 rs2 f7) = r op rd f3 rs1 rs2 f7
encode (Format.imm op rd f3 rs1 v) = i op rd f3 rs1 v
encode (Format.sto op f3 rs1 rs2 v) = s op f3 rs1 rs2 v
encode (Format.bra op f3 rs1 rs2 v) = b op f3 rs1 rs2 v
encode (Format.upp op rd v) = u op rd v
encode (Format.jmp op rd v) = j op rd v

-- A signed number that fits, and one that is also even.
abbrev pub Fits : ℕ → ℤ → Type 0
Fits half v = (pos_part v < half) × (neg_part v ≤ half)

abbrev pub FitsEven : ℕ → ℤ → Type 0
FitsEven half v = (pos_part v < half) × (neg_part v ≤ half) × ((pos_part v + neg_part v) % 2 ≡ 0)

-- The fields are of their widths.
abbrev pub InRange : Format → Type 0
InRange (Format.reg op rd f3 rs1 rs2 f7) =
    (op < 128) × (rd < 32) × (f3 < 8) × (rs1 < 32) × (rs2 < 32) × (f7 < 128)
InRange (Format.imm op rd f3 rs1 v) = (op < 128) × (rd < 32) × (f3 < 8) × (rs1 < 32) × Fits 2048 v
InRange (Format.sto op f3 rs1 rs2 v) = (op < 128) × (f3 < 8) × (rs1 < 32) × (rs2 < 32) × Fits 2048 v
InRange (Format.bra op f3 rs1 rs2 v) =
    (op < 128) × (f3 < 8) × (rs1 < 32) × (rs2 < 32) × FitsEven 4096 v
InRange (Format.upp op rd v) = (op < 128) × (rd < 32) × (v < 4294967296)
InRange (Format.jmp op rd v) = (op < 128) × (rd < 32) × FitsEven 1048576 v

-- The decoder reads the fields of a format in a word.
abbrev pub Reads : Format → ℕ → Type 0
Reads (Format.reg op rd f3 rs1 rs2 f7) w =
    (Decode.opcode w ≡ op)
    × (Decode.rd w ≡ rd)
    × (Decode.funct3 w ≡ f3)
    × (Decode.rs1 w ≡ rs1)
    × (Decode.rs2 w ≡ rs2)
    × (Decode.funct7 w ≡ f7)
Reads (Format.imm op rd f3 rs1 v) w =
    (Decode.opcode w ≡ op)
    × (Decode.rd w ≡ rd)
    × (Decode.funct3 w ≡ f3)
    × (Decode.rs1 w ≡ rs1)
    × (Decode.imm_i w ≡ v)
Reads (Format.sto op f3 rs1 rs2 v) w =
    (Decode.opcode w ≡ op)
    × (Decode.funct3 w ≡ f3)
    × (Decode.rs1 w ≡ rs1)
    × (Decode.rs2 w ≡ rs2)
    × (Decode.imm_s w ≡ v)
Reads (Format.bra op f3 rs1 rs2 v) w =
    (Decode.opcode w ≡ op)
    × (Decode.funct3 w ≡ f3)
    × (Decode.rs1 w ≡ rs1)
    × (Decode.rs2 w ≡ rs2)
    × (Decode.imm_b w ≡ v)
Reads (Format.upp op rd v) w =
    (Decode.opcode w ≡ op) × (Decode.rd w ≡ rd) × (Decode.imm_u w ≡ v / 4096 * 4096)
Reads (Format.jmp op rd v) w = (Decode.opcode w ≡ op) × (Decode.rd w ≡ rd) × (Decode.imm_j w ≡ v)

signed_12 : (v : ℤ) → Fits 2048 v → signed 2048 (as_u32 v % 4096) ≡ v
signed_12 v h = ground arith

signed_13 : (v : ℤ) → FitsEven 4096 v → signed 4096 (as_u32 v % 8192) ≡ v
signed_13 v h = ground arith

signed_21 : (v : ℤ) → FitsEven 1048576 v → signed 1048576 (as_u32 v % 2097152) ≡ v
signed_21 v h = ground arith

even_u32 : (v : ℤ) → ((pos_part v + neg_part v) % 2 ≡ 0) → as_u32 v % 2 ≡ 0
even_u32 (pos n) e = omega arith
even_u32 (negsuc n) e = omega arith

-- The decoder reads back the fields that an encoder was given, in each of the six formats, if they are
-- of their widths and a branch or jump goes an even distance; of the operand of LUI and AUIPC, the
-- upper 20 bits.
pub encode-Reads : (f : Format) → InRange f → Reads f (encode f)
encode-Reads (Format.reg op rd f3 rs1 rs2 f7) (a, c, d, e, g, h) =
    let w = r op rd f3 rs1 rs2 f7 in
    omega (
      arith,
      r_sum op rd f3 rs1 rs2 f7 a c d e g h,
      opcode-mod w,
      rd-mod w,
      funct3-mod w,
      rs1-mod w,
      rs2-mod w,
      funct7-mod w,
    )
encode-Reads (Format.imm op rd f3 rs1 v) (a, c, d, e, h) =
    let w = i op rd f3 rs1 v in
    let sum = i_sum op rd f3 rs1 v a c d e in
    let low : w / 1048576 % 4096 ≡ as_u32 v % 4096 = omega (arith, sum) in
    (
      opcode-mod w ∙ omega (arith, sum),
      rd-mod w ∙ omega (arith, sum),
      funct3-mod w ∙ omega (arith, sum),
      rs1-mod w ∙ omega (arith, sum),
      imm_i-signed w ∙ ap (signed 2048) low ∙ signed_12 v h,
    )
encode-Reads (Format.sto op f3 rs1 rs2 v) (a, c, d, e, h) =
    let w = s op f3 rs1 rs2 v in
    let sum = s_sum op f3 rs1 rs2 v a c d e in
    let low : w / 33554432 % 128 * 32 + w / 128 % 32 ≡ as_u32 v % 4096 = omega (arith, sum) in
    (
      opcode-mod w ∙ omega (arith, sum),
      funct3-mod w ∙ omega (arith, sum),
      rs1-mod w ∙ omega (arith, sum),
      rs2-mod w ∙ omega (arith, sum),
      imm_s-signed w ∙ ap (signed 2048) low ∙ signed_12 v h,
    )
encode-Reads (Format.bra op f3 rs1 rs2 v) (a, c, d, e, h) =
    let w = b op f3 rs1 rs2 v in
    let sum = b_sum op f3 rs1 rs2 v a c d e in
    let low : w / 2147483648 % 2 * 4096
          + w / 128 % 2 * 2048
          + w / 33554432 % 64 * 32
          + w / 256 % 16 * 2
        ≡ as_u32 v % 8192 =
      omega (arith, sum, even_u32 v h.2) in
    (
      opcode-mod w ∙ omega (arith, sum),
      funct3-mod w ∙ omega (arith, sum),
      rs1-mod w ∙ omega (arith, sum),
      rs2-mod w ∙ omega (arith, sum),
      imm_b-signed w ∙ ap (signed 4096) low ∙ signed_13 v h,
    )
encode-Reads (Format.upp op rd v) (a, c, h) =
    let w = u op rd v in omega (arith, u_sum op rd v a c, opcode-mod w, rd-mod w, imm_u-mod w)
encode-Reads (Format.jmp op rd v) (a, c, h) =
    let w = j op rd v in
    let sum = j_sum op rd v a c in
    let low : w / 2147483648 % 2 * 1048576
          + w / 4096 % 256 * 4096
          + w / 1048576 % 2 * 2048
          + w / 2097152 % 1024 * 2
        ≡ as_u32 v % 2097152 =
      omega (arith, sum, even_u32 v h.2) in
    (
      opcode-mod w ∙ omega (arith, sum),
      rd-mod w ∙ omega (arith, sum),
      imm_j-signed w ∙ ap (signed 1048576) low ∙ signed_21 v h,
    )
