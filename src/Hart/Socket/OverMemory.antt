-- ===== src/Hart/Socket/OverMemory.antt =====
-- `SocketBus` of crates/systemrs-examples/src/rv32i.rs over the memory of
-- crates/systemrs-tlm2/src/memory.rs.
use Prim.Native.Nat.{bit_or}
use systemrs.Base.{
  ℕ, ◌+◌, ◌-◌, ◌*◌, ◌/◌, ◌%◌, ◌^◌, ◌≤◌, ◌<◌, List, [], ◌∷◌, true, false, none, some, ◌≡◌, ◌⊎◌, inl,
  inr, refl, arith, ap, sym, ◌∙◌, length, take, drop, replicate, length-replicate, get_elem?_ext,
  get_elem?-take, get_elem?-drop, get_elem?_none, Bool-cases,
}
use systemrs.Base.Bits.{bit_or_field}
use systemrs.Base.Word.{◌<<<◌, to_le_bytes, from_le_bytes}
use systemrs.Time.{SimTime}
use systemrs.Tlm.Payload.{GenericPayload, ByteEnable, enabled, new, new_read, new_write}
use systemrs.Tlm.Memory.{Memory, b_transport, slice, fits, write_bytes}
use systemrs.Tlm.Memory.Bytes.{length-write_bytes, get_elem?-write_bytes}
use systemrs.BusMaster
use systemrs.Hart.{Bus}
use systemrs.Hart.Socket.{read, write, socket_bus, or_bytes}

abbrev pub memory_transport : Memory → GenericPayload → SimTime → Memory × GenericPayload × SimTime
memory_transport m txn delay = let (m', txn') = b_transport m txn in (m', txn', delay)

abbrev pub memory_bus : Bus Memory
memory_bus = socket_bus memory_transport

abbrev pub IsByte : ℕ → Type 0
IsByte b = b < 256

or_byte : (v b k : ℕ) → v < 2 ^ k → b * 2 ^ k < 4294967296 → bit_or v (b <<< k) ≡ v + b * 2 ^ k
or_byte v b k h g = ground (arith, bit_or_field k v b h)

-- The bytes of a little-endian word, put together.
or_bytes_1 : (a : ℕ) → IsByte a → or_bytes 0 0 (a ∷ []) ≡ a
unfolding or_bytes
or_bytes_1 a h = rw (or_byte 0 a 0 (omega arith) (omega arith)) (omega arith)

or_bytes_2 :
    (a b : ℕ) → IsByte a → IsByte b → or_bytes 0 0 (a ∷ b ∷ []) ≡ from_le_bytes (a ∷ b ∷ [])
unfolding or_bytes
or_bytes_2 a b h g =
    rw
      (
        or_byte 0 a 0 (omega arith) (omega arith),
        or_byte (0 + a * 2 ^ 0) b 8 (omega arith) (omega arith),
      )
      (omega arith)

or_bytes_4 :
    (a b c d : ℕ)
    → IsByte a
    → IsByte b
    → IsByte c
    → IsByte d
    → or_bytes 0 0 (a ∷ b ∷ c ∷ d ∷ []) ≡ from_le_bytes (a ∷ b ∷ c ∷ d ∷ [])
unfolding or_bytes
or_bytes_4 a b c d h g i j =
    rw
      (
        or_byte 0 a 0 (omega arith) (omega arith),
        or_byte (0 + a * 2 ^ 0) b 8 (omega arith) (omega arith),
        or_byte (0 + a * 2 ^ 0 + b * 2 ^ 8) c 16 (omega arith) (omega arith),
        or_byte (0 + a * 2 ^ 0 + b * 2 ^ 8 + c * 2 ^ 16) d 24 (omega arith) (omega arith),
      )
      (omega arith)

from_to_le : (w : ℕ) → w < 4294967296 → from_le_bytes (to_le_bytes w) ≡ w
from_to_le w h = omega arith

pub or-to_le : (w : ℕ) → w < 4294967296 → or_bytes 0 0 (to_le_bytes w) ≡ w
or-to_le w h =
    or_bytes_4 (w % 256) (w / 256 % 256) (w / 65536 % 256) (w / 16777216 % 256) (omega arith)
      (omega arith) (omega arith) (omega arith)
    ∙ from_to_le w h

-- A transaction within the memory.
module _ (m : Memory) (addr : ℕ) where
  pub read-slice :
      (len : ℕ)
      → fits addr len (length m.storage) ≡ true
      → read memory_transport m addr len
        ≡ (m, some (or_bytes 0 0 (take 4 (slice m.storage addr len))))
  unfolding read BusMaster.read b_transport new_read new
  read-slice len h =
      let zero_byte : ℕ = 0 in
      let n : length (replicate len zero_byte) ≡ len = length-replicate len zero_byte in
      rw (n, h) refl

  abbrev pub stored : List ℕ → Memory
  stored bytes = record m { storage = write_bytes ByteEnable.all 0 bytes addr m.storage }

  pub write-stored :
      (value len : ℕ)
      → length (take len (to_le_bytes value)) ≡ len
      → fits addr len (length m.storage) ≡ true
      → write memory_transport m addr value len ≡ (stored (take len (to_le_bytes value)), true)
  unfolding write BusMaster.write b_transport new_write new
  write-stored value len n h = rw (n, h) refl

fits→le : (addr len size : ℕ) → fits addr len size ≡ true → addr + len ≤ size
fits→le addr len size h = ground (arith, h)

-- What a slice reads after a write: the bytes at the place, and elsewhere what was there.
module _ (mem bytes : List ℕ) (addr : ℕ) (h : addr + length bytes ≤ length mem) where
  slice-written : slice (write_bytes ByteEnable.all 0 bytes addr mem) addr (length bytes) ≡ bytes
  unfolding enabled
  slice-written = get_elem?_ext _ bytes (λ j.
      let back : addr + j - (addr + 0) ≡ j = omega arith in
      let mem' = write_bytes ByteEnable.all 0 bytes addr mem in
      ground (
        arith,
        get_elem?-take (length bytes) (drop addr mem') j,
        get_elem?-drop addr mem' j,
        get_elem?-write_bytes ByteEnable.all 0 bytes addr mem (addr + j),
        get_elem?_none bytes j,
        back,
      ))

  pub slice-apart :
      (at len : ℕ)
      → (at + len ≤ addr) ⊎ (addr + length bytes ≤ at)
      → slice (write_bytes ByteEnable.all 0 bytes addr mem) at len ≡ slice mem at len
  unfolding enabled
  slice-apart at len apart = get_elem?_ext _ _ (λ j.
      let mem' = write_bytes ByteEnable.all 0 bytes addr mem in
      ground (
        arith,
        get_elem?-take len (drop at mem') j,
        get_elem?-drop at mem' j,
        get_elem?-take len (drop at mem) j,
        get_elem?-drop at mem j,
        get_elem?-write_bytes ByteEnable.all 0 bytes addr mem (at + j),
      ))

pub read-outside :
    (m : Memory) (addr len : ℕ)
    → fits addr len (length m.storage) ≡ false
    → read memory_transport m addr len ≡ (m, none)
unfolding read BusMaster.read b_transport new_read new
read-outside m addr len h =
    let zero_byte : ℕ = 0 in
    let n : length (replicate len zero_byte) ≡ len = length-replicate len zero_byte in
    rw (n, h) refl

-- A load changes nothing.
pub read_same : (m : Memory) (addr len : ℕ) → (read memory_transport m addr len).0 ≡ m
read_same m addr len = elim (Bool-cases (fits addr len (length m.storage))) [
  | inl here ↦ ap (λ r. r.0) (read-slice m addr len here)
  | inr out ↦ ap (λ r. r.0) (read-outside m addr len out)
]

-- The widths of loads and stores.
pub data Width : Type 0 where
  byte half word : Width

abbrev pub width : Width → ℕ
width Width.byte = 1
width Width.half = 2
width Width.word = 4

abbrev pub wraps : Width → ℕ
wraps Width.byte = 256
wraps Width.half = 65536
wraps Width.word = 4294967296

or-take :
    (w : Width) (value : ℕ)
    → or_bytes 0 0 (take 4 (take (width w) (to_le_bytes value))) ≡ value % wraps w
or-take Width.byte value = or_bytes_1 (value % 256) (omega arith)
or-take Width.half value =
    or_bytes_2 (value % 256) (value / 256 % 256) (omega arith) (omega arith) ∙ omega arith
or-take Width.word value =
    or_bytes_4 (value % 256) (value / 256 % 256) (value / 65536 % 256) (value / 16777216 % 256)
      (omega arith) (omega arith) (omega arith) (omega arith)
    ∙ omega arith

length-bytes : (w : Width) (value : ℕ) → length (take (width w) (to_le_bytes value)) ≡ width w
length-bytes Width.byte value = refl
length-bytes Width.half value = refl
length-bytes Width.word value = refl

module _ (m : Memory) (addr value : ℕ) (w : Width)
    (inside : fits addr (width w) (length m.storage) ≡ true) where
  abbrev pub after : Memory
  after = stored m addr (take (width w) (to_le_bytes value))

  pub same_size : length after.storage ≡ length m.storage
  same_size =
      length-write_bytes ByteEnable.all 0 (take (width w) (to_le_bytes value)) addr m.storage

  read_back : read memory_transport after addr (width w) ≡ (after, some (value % wraps w))
  read_back =
      let bytes = take (width w) (to_le_bytes value) in
      let n = length-bytes w value in
      let le : addr + length bytes ≤ length m.storage = rw n (fits→le addr (width w) _ inside) in
      let now : fits addr (width w) (length after.storage) ≡ true = rw same_size inside in
      let part : slice after.storage addr (width w) ≡ bytes =
        ap (slice after.storage addr) (sym n) ∙ slice-written m.storage bytes addr le in
      read-slice after addr (width w) now
      ∙ ap (λ bs. (after, some (or_bytes 0 0 (take 4 bs)))) part
      ∙ ap (λ v. (after, some v)) (or-take w value)

  read_apart :
      (at len : ℕ)
      → (at + len ≤ addr) ⊎ (addr + width w ≤ at)
      → (read memory_transport after at len).1 ≡ (read memory_transport m at len).1
  read_apart at len apart =
      let bytes = take (width w) (to_le_bytes value) in
      let n = length-bytes w value in
      let le : addr + length bytes ≤ length m.storage = rw n (fits→le addr (width w) _ inside) in
      elim (Bool-cases (fits at len (length m.storage))) [
        | inl here ↦
            let now : fits at len (length after.storage) ≡ true = rw same_size here in
            ap (λ r. r.1) (read-slice after at len now)
            ∙ ap (λ bs. some (or_bytes 0 0 (take 4 bs)))
                (slice-apart m.storage bytes addr le at len (rw n apart))
            ∙ ap (λ r. r.1) (sym (read-slice m at len here))
        | inr out ↦
            let now : fits at len (length after.storage) ≡ false = rw same_size out in
            ap (λ r. r.1) (read-outside after at len now)
            ∙ ap (λ r. r.1) (sym (read-outside m at len out))
      ]

  -- Over the TLM memory, a store of a byte, half word or word that lies within it succeeds; a load of the
  -- same width then gives the stored value, cut to the width; and a load of any length that does not
  -- meet the stored bytes, in or out of the memory, gives what it gave before.
  pub load-store :
      (at len : ℕ)
      → (at + len ≤ addr) ⊎ (addr + width w ≤ at)
      → let (m', done) = write memory_transport m addr value (width w) in
        (done ≡ true)
        × (read memory_transport m' addr (width w) ≡ (m', some (value % wraps w)))
        × ((read memory_transport m' at len).1 ≡ (read memory_transport m at len).1)
  load-store at len apart =
      rw (write-stored m addr value (width w) (length-bytes w value) inside)
        (refl, read_back, read_apart at len apart)
