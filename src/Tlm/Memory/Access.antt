-- ===== src/Tlm/Memory/Access.antt =====
-- What the transports of crates/systemrs-tlm2/src/memory.rs do to each byte of the memory and of the
-- payload.
use systemrs.Base.{
  ℕ, ◌+◌, ◌-◌, ◌≤◌, List, ◌++◌, Bool, true, false, none, ◌&&◌, ◌||◌, ◌≡◌, refl, inl, inr, length,
  get_elem?, take, drop, if◌then◌else◌, leb, ltb, arith, get_elem?-append, get_elem?-take,
  get_elem?-drop, length-take, get_elem?_ext, get_elem?_none, length-append, Bool-cases,
  length-replicate,
}
use native.Mathlib.Numerals.{unary_clauses}
use systemrs.Tlm.Payload.{
  new_read, new_write, GenericPayload, Command, ResponseStatus, ByteEnable, enabled,
}
use systemrs.Tlm.Memory.{
  Memory, b_transport, transport_dbg, fits, slice, copy_into, read_data, write_bytes,
}
use systemrs.Tlm.Memory.Bytes.{get_elem?-write_bytes, get_elem?-read_bytes, length-write_bytes}

get_elem?-slice :
    (mem : List ℕ) (addr len j : ℕ)
    → get_elem? (slice mem addr len) j ≡ (if ltb j len then get_elem? mem (addr + j) else none)
get_elem?-slice mem addr len j =
    ground (arith, get_elem?-take len (drop addr mem) j, get_elem?-drop addr mem j)

get_elem?-copy_into :
    (mem : List ℕ) (addr : ℕ) (bytes : List ℕ) (j : ℕ)
    → addr + length bytes ≤ length mem
    → get_elem? (copy_into mem addr bytes) j ≡ (
        if leb addr j && ltb j (addr + length bytes)
        then get_elem? bytes (j - addr)
        else get_elem? mem j)
get_elem?-copy_into mem addr bytes j h =
    let front : length (take addr mem) ≡ addr = length-take addr mem (omega arith) in
    let back : leb (addr + length bytes) j ≡ true
        → addr + length bytes + (j - (addr + length bytes)) ≡ j =
      λ e. ground arith in
    rw
      (
        get_elem?-append (take addr mem ++ bytes) (drop (addr + length bytes) mem) j,
        get_elem?-append (take addr mem) bytes j,
        get_elem?-drop (addr + length bytes) mem (j - length (take addr mem ++ bytes)),
        get_elem?-take addr mem j,
        length-append (take addr mem) bytes,
        front,
      )
      (ground (arith, back))

-- The write loop with every byte enabled is the slice copy.
copy_into-write_bytes :
    (mem : List ℕ) (addr : ℕ) (bytes : List ℕ)
    → addr + length bytes ≤ length mem
    → write_bytes ByteEnable.all 0 bytes addr mem ≡ copy_into mem addr bytes
unfolding enabled
copy_into-write_bytes mem addr bytes h = get_elem?_ext _ _ (λ j. ground (
  arith,
  get_elem?-write_bytes ByteEnable.all 0 bytes addr mem j,
  get_elem?-copy_into mem addr bytes j,
))

abbrev pub is_read : Command → Bool
is_read Command.read = true
is_read _ = false

abbrev pub is_write : Command → Bool
is_write Command.write = true
is_write _ = false

abbrev pub accepts : Memory → GenericPayload → Bool
accepts m txn = fits txn.address (length txn.bytes) (length m.storage)

get_elem?-read_data :
    (mem : List ℕ) (txn : GenericPayload) (be : ByteEnable) (j : ℕ)
    → txn.byte_enable ≡ be
    → txn.address + length txn.bytes ≤ length mem
    → get_elem? (read_data mem txn) j ≡ (
        if ltb j (length txn.bytes) && enabled txn.byte_enable j
        then get_elem? mem (txn.address + j)
        else get_elem? txn.bytes j)
unfolding read_data enabled
get_elem?-read_data mem txn ByteEnable.all j e h = rw (e) (
    ground
      (arith, get_elem?-slice mem txn.address (length txn.bytes) j, get_elem?_none txn.bytes j))
get_elem?-read_data mem txn (ByteEnable.mask m) j e h = rw (e) (
    ground (
      arith,
      get_elem?-read_bytes (length txn.bytes) (ByteEnable.mask m) 0 txn.address mem txn.bytes j,
    ))

fits→le : (addr len size : ℕ) → fits addr len size ≡ true → addr + len ≤ size
fits→le addr len size h = ground arith

-- Whether the bytes of the payload that it enables reach address `j`.
abbrev pub reaches : GenericPayload → ℕ → Bool
reaches txn j =
    leb txn.address j
    && ltb j (txn.address + length txn.bytes)
    && enabled txn.byte_enable (j - txn.address)

-- What a transaction leaves at address `j` of the memory and at index `j` of the payload, and its
-- status.
abbrev pub Transferred : Memory → GenericPayload → ℕ → Memory × GenericPayload → Type 0
Transferred m txn j (m', txn') =
    (get_elem? m'.storage j ≡ (
      if accepts m txn && is_write txn.command && reaches txn j
      then get_elem? txn.bytes (j - txn.address)
      else get_elem? m.storage j))
    × (get_elem? txn'.bytes j ≡ (
        if accepts m txn
          && is_read txn.command
          && ltb j (length txn.bytes)
          && enabled txn.byte_enable j
        then get_elem? m.storage (txn.address + j)
        else get_elem? txn.bytes j))
    × (txn'.response_status
        ≡ (if accepts m txn then ResponseStatus.ok else ResponseStatus.address_error))

accepted-Transferred :
    (m : Memory) (txn : GenericPayload) (j : ℕ) (c : Command)
    → txn.command ≡ c
    → accepts m txn ≡ true
    → Transferred m txn j (b_transport m txn)
unfolding b_transport
accepted-Transferred m txn j Command.read e inside =
    let le = fits→le txn.address (length txn.bytes) (length m.storage) inside in
    rw (inside, e) (refl, get_elem?-read_data m.storage txn txn.byte_enable j refl le, refl)
accepted-Transferred m txn j Command.write e inside =
    let le = fits→le txn.address (length txn.bytes) (length m.storage) inside in
    rw (inside, e)
      (
        simp unary_clauses at (
            get_elem?-write_bytes txn.byte_enable 0 txn.bytes txn.address m.storage j
              (omega (arith, le))),
        refl,
        refl,
      )
accepted-Transferred m txn j Command.ignore e inside = rw (inside, e) (refl, refl, refl)

-- The payload and the memory that a transaction leaves, byte by byte, for every command, mask,
-- address and size. The memory changes at an address if and only if the transaction is a write whose
-- range lies in the memory and that enables the byte; it then takes that byte of the payload. The
-- payload changes at an index if and only if the transaction is a read whose range lies in the memory
-- and that enables the byte; it then takes the byte of the memory. The status is ok if the range lies
-- in the memory, and an address error otherwise.
pub b_transport-Transferred :
    (m : Memory) (txn : GenericPayload) (j : ℕ) → Transferred m txn j (b_transport m txn)
unfolding b_transport
b_transport-Transferred m txn j = elim (Bool-cases (accepts m txn)) [
  | inr out ↦ rw (out) (refl, refl, refl)
  | inl inside ↦ accepted-Transferred m txn j txn.command refl inside
]

slice-copy_into :
    (mem : List ℕ) (addr : ℕ) (bytes : List ℕ)
    → addr + length bytes ≤ length mem
    → slice (copy_into mem addr bytes) addr (length bytes) ≡ bytes
slice-copy_into mem addr bytes h = get_elem?_ext _ bytes (λ j.
    let back : addr + j - addr ≡ j = omega arith in
    ground (
      arith,
      back,
      get_elem?-slice (copy_into mem addr bytes) addr (length bytes) j,
      get_elem?-copy_into mem addr bytes (addr + j),
      get_elem?_none bytes j,
    ))

-- What was written is read back: a read of as many bytes at the same address, after a write with every
-- byte enabled whose range lies in the memory, gives the bytes that were written.
pub read-write :
    (m : Memory) (address : ℕ) (bytes : List ℕ)
    → fits address (length bytes) (length m.storage) ≡ true
    → (b_transport
        (b_transport m (new_write address bytes)).0
        (new_read address (length bytes))).1.bytes
      ≡ bytes
unfolding b_transport new_write new_read
read-write m address bytes inside =
    let zero_byte : ℕ = 0 in
    let le = fits→le address (length bytes) (length m.storage) inside in
    rw
      (
        inside,
        length-replicate (length bytes) zero_byte,
        length-write_bytes ByteEnable.all 0 bytes address m.storage,
        inside,
        copy_into-write_bytes m.storage address bytes le,
      )
      (slice-copy_into m.storage address bytes le)

-- The debug transport's result is that of the other, with the number of bytes moved.
abbrev pub SameTransfer :
    Memory → GenericPayload → Memory × GenericPayload × ℕ → Memory × GenericPayload → Type 0
SameTransfer m txn (m₁, txn₁, moved) (m₂, txn₂) =
    (m₁ ≡ m₂)
    × (txn₁ ≡ txn₂)
    × (moved ≡ (
        if accepts m txn && (is_read txn.command || is_write txn.command)
        then length txn.bytes
        else 0))

accepted-SameTransfer :
    (m : Memory) (txn : GenericPayload) (c : Command)
    → txn.command ≡ c
    → txn.byte_enable ≡ ByteEnable.all
    → accepts m txn ≡ true
    → SameTransfer m txn (transport_dbg m txn) (b_transport m txn)
unfolding b_transport transport_dbg
accepted-SameTransfer m txn Command.read e every inside = rw (inside, e, every) (refl, refl, refl)
accepted-SameTransfer m txn Command.write e every inside =
    let le = fits→le txn.address (length txn.bytes) (length m.storage) inside in
    rw (inside, e, every, copy_into-write_bytes m.storage txn.address txn.bytes le)
      (refl, refl, refl)
accepted-SameTransfer m txn Command.ignore e every inside = rw (inside, e, every) (refl, refl, refl)

-- On a payload with every byte enabled, the debug transport leaves the memory and the payload that
-- `b_transport` leaves, and it reports the length of the payload unless it refuses or ignores it.
pub transport_dbg-SameTransfer :
    (m : Memory) (txn : GenericPayload)
    → txn.byte_enable ≡ ByteEnable.all
    → SameTransfer m txn (transport_dbg m txn) (b_transport m txn)
unfolding b_transport transport_dbg
transport_dbg-SameTransfer m txn every = elim (Bool-cases (accepts m txn)) [
  | inr out ↦ rw (out) (refl, refl, refl)
  | inl inside ↦ accepted-SameTransfer m txn txn.command refl every inside
]
