-- ===== src/Tlm/Memory/Bytes.antt =====
-- Reads and writes of crates/systemrs-tlm2/src/memory.rs, byte by byte.
use systemrs.Base.{
  ℕ, zero, suc, ◌+◌, ◌-◌, ◌≤◌, List, [], ◌∷◌, Bool, Option, none, some, ◌&&◌, ◌≡◌, refl, inl, inr,
  length, get_elem?, set, if◌then◌else◌, leb, ltb, ◌==◌, arith, get_elem?-set, length-set,
  Bool-cases, ==→eq, get_elem?-some, ap,
}
use systemrs.Tlm.Payload.{ByteEnable, enabled}
use systemrs.Tlm.Memory.{write_bytes, read_bytes, copy_byte}

get_elem?-cons :
    (b : ℕ) (bs : List ℕ) (k : ℕ)
    → get_elem? (b ∷ bs) k ≡ (if k == 0 then some b else get_elem? bs (k - 1))
get_elem?-cons b bs zero = refl
get_elem?-cons b bs (suc k) = ground arith

pub length-write_bytes :
    (be : ByteEnable) (i : ℕ) (bs : List ℕ) (addr : ℕ) (mem : List ℕ)
    → length (write_bytes be i bs addr mem) ≡ length mem
unfolding write_bytes
length-write_bytes be i [] addr mem = refl
length-write_bytes be i (b ∷ bs) addr mem = elim (Bool-cases (enabled be i)) [
  | inl on ↦ rw (on) (
      omega (
        arith,
        length-write_bytes be (suc i) bs addr (set mem (addr + i) b),
        length-set mem (addr + i) b,
      ))
  | inr off ↦ rw (off) (length-write_bytes be (suc i) bs addr mem)
]

-- Whether a write of `len` bytes from index `i` on at `addr` reaches address `j`.
abbrev pub written : ByteEnable → ℕ → ℕ → ℕ → ℕ → Bool
written be i len addr j = leb (addr + i) j && ltb j (addr + i + len) && enabled be (j - addr)

pub get_elem?-write_bytes :
    (be : ByteEnable) (i : ℕ) (bs : List ℕ) (addr : ℕ) (mem : List ℕ) (j : ℕ)
    → addr + i + length bs ≤ length mem
    → get_elem? (write_bytes be i bs addr mem) j
      ≡ (if written be i (length bs) addr j then get_elem? bs (j - (addr + i)) else get_elem? mem j)
unfolding write_bytes
get_elem?-write_bytes be i [] addr mem j h = ground arith
get_elem?-write_bytes be i (b ∷ bs) addr mem j h = elim (Bool-cases (j == addr + i)) [
  | inl here ↦
      let at : j ≡ addr + i = ==→eq j (addr + i) here in
      let same : j - addr ≡ i = omega arith in
      elim (Bool-cases (enabled be i)) [
        | inl on ↦ rw (on) (
            ground (
              arith,
              same,
              on,
              get_elem?-cons b bs (j - (addr + i)),
              get_elem?-write_bytes be (suc i) bs addr (set mem (addr + i) b) j,
              get_elem?-set mem (addr + i) j b,
              length-set mem (addr + i) b,
            ))
        | inr off ↦
            rw (off) (ground (arith, same, off, get_elem?-write_bytes be (suc i) bs addr mem j))
      ]
  | inr elsewhere ↦
      let shift : j - (addr + suc i) ≡ j - (addr + i) - 1 = omega arith in
      elim (Bool-cases (enabled be i)) [
        | inl on ↦ rw (on) (
            ground (
              arith,
              shift,
              get_elem?-cons b bs (j - (addr + i)),
              get_elem?-write_bytes be (suc i) bs addr (set mem (addr + i) b) j,
              get_elem?-set mem (addr + i) j b,
              length-set mem (addr + i) b,
            ))
        | inr off ↦ rw (off) (
            ground (
              arith,
              shift,
              get_elem?-cons b bs (j - (addr + i)),
              get_elem?-write_bytes be (suc i) bs addr mem j,
            ))
      ]
]

enabled_eq : (be : ByteEnable) (i j : ℕ) → j ≡ i → enabled be j ≡ enabled be i
enabled_eq be i j e = ap (enabled be) e

length-copy_byte :
    (bytes : List ℕ) (i : ℕ) (o : Option ℕ) → length (copy_byte bytes i o) ≡ length bytes
length-copy_byte bytes i none = refl
length-copy_byte bytes i (some b) = length-set bytes i b

pub length-read_bytes :
    (n : ℕ) (be : ByteEnable) (i addr : ℕ) (mem bytes : List ℕ)
    → length (read_bytes n be i addr mem bytes) ≡ length bytes
unfolding read_bytes
length-read_bytes zero be i addr mem bytes = refl
length-read_bytes (suc n) be i addr mem bytes = ground (
  arith,
  length-read_bytes n be (suc i) addr mem
      (if enabled be i then copy_byte bytes i (get_elem? mem (addr + i)) else bytes),
  length-copy_byte bytes i (get_elem? mem (addr + i)),
)

pub get_elem?-read_bytes :
    (n : ℕ) (be : ByteEnable) (i addr : ℕ) (mem bytes : List ℕ) (j : ℕ)
    → i + n ≤ length bytes
    → addr + i + n ≤ length mem
    → get_elem? (read_bytes n be i addr mem bytes) j ≡ (
        if leb i j && ltb j (i + n) && enabled be j
        then get_elem? mem (addr + j)
        else get_elem? bytes j)
unfolding read_bytes
get_elem?-read_bytes zero be i addr mem bytes j h k = ground arith
get_elem?-read_bytes (suc n) be i addr mem bytes j h k =
    let (b, e) = get_elem?-some mem (addr + i) (omega arith) in
    elim (Bool-cases (enabled be i)) [
      | inl on ↦
          rw (e, on)
            (elim (Bool-cases (j == i)) [
              | inl here ↦ ground (
                arith,
                enabled_eq be i j,
                on,
                e,
                get_elem?-read_bytes n be (suc i) addr mem (set bytes i b) j,
                get_elem?-set bytes i j b,
                length-set bytes i b,
              )
              | inr elsewhere ↦ ground (
                arith,
                get_elem?-read_bytes n be (suc i) addr mem (set bytes i b) j,
                get_elem?-set bytes i j b,
                length-set bytes i b,
              )
            ])
      | inr off ↦
          rw (e, off)
            (ground
              (arith, enabled_eq be i j, off, get_elem?-read_bytes n be (suc i) addr mem bytes j))
    ]
