-- ===== src/Tlm/Memory.antt =====
-- crates/systemrs-tlm2/src/memory.rs: the byte-addressable memory target. A transaction gives the
-- memory and the payload that it leaves; a slice out of range panics, which is `none`.
pub mod Bytes
pub mod Access
use systemrs.Base.{
  ℕ, zero, suc, ◌+◌, List, [], ◌∷◌, ◌++◌, Bool, true, false, Option, none, some, ◌&&◌, length,
  get_elem?, set, take, drop, replicate, if◌then◌else◌, leb, u64_max,
}
use systemrs.Time.{SimTime, is_zero}
use systemrs.Kernel.Process.{WaitReq}
use systemrs.Tlm.Payload.{GenericPayload, Command, ResponseStatus, ByteEnable, enabled}

pub record Memory : Type 0 where
  pub storage : List ℕ
  pub latency : SimTime

unfoldable pub new : ℕ → SimTime → Memory
new size latency = record { storage = replicate size 0; latency = latency }

-- `addr.checked_add(len)` against the size.
abbrev pub fits : ℕ → ℕ → ℕ → Bool
fits addr len size = leb (addr + len) u64_max && leb (addr + len) size

-- `&mem[addr..addr + len]`, in range.
abbrev pub slice : List ℕ → ℕ → ℕ → List ℕ
slice mem addr len = take len (drop addr mem)

-- `mem[addr..addr + bytes.len()].copy_from_slice(bytes)`, in range.
abbrev pub copy_into : List ℕ → ℕ → List ℕ → List ℕ
copy_into mem addr bytes = take addr mem ++ bytes ++ drop (addr + length bytes) mem

unfoldable pub load : Memory → ℕ → List ℕ → Option Memory
load m addr bytes =
    if fits addr (length bytes) (length m.storage)
    then some (record m { storage = copy_into m.storage addr bytes })
    else none

unfoldable pub read_byte : Memory → ℕ → Option ℕ
read_byte m addr = get_elem? m.storage addr

-- `data[i] = mem[addr + i]`, in range.
abbrev pub copy_byte : List ℕ → ℕ → Option ℕ → List ℕ
copy_byte bytes i none = bytes
copy_byte bytes i (some b) = set bytes i b

-- `for i in 0..len`, from `i` on, of a read: the number of rounds left comes first.
unfoldable pub read_bytes : ℕ → ByteEnable → ℕ → ℕ → List ℕ → List ℕ → List ℕ
read_bytes zero be i addr mem bytes = bytes
read_bytes (suc n) be i addr mem bytes =
    read_bytes n be (suc i) addr mem
      (if enabled be i then copy_byte bytes i (get_elem? mem (addr + i)) else bytes)

-- `for i in 0..len`, from `i` on, of a write: the bytes left come after the index.
unfoldable pub write_bytes : ByteEnable → ℕ → List ℕ → ℕ → List ℕ → List ℕ
write_bytes be i [] addr mem = mem
write_bytes be i (b ∷ bs) addr mem =
    write_bytes be (suc i) bs addr (if enabled be i then set mem (addr + i) b else mem)

abbrev pub respond : ResponseStatus → GenericPayload → GenericPayload
respond status txn = record txn { response_status = status }

abbrev pub read_data : List ℕ → GenericPayload → List ℕ
unfolding read_bytes
read_data mem txn = elim txn.byte_enable [
  | ByteEnable.all ↦ slice mem txn.address (length txn.bytes)
  | ByteEnable.mask m ↦
      read_bytes (length txn.bytes) (ByteEnable.mask m) 0 txn.address mem txn.bytes
]

-- The wait at the start of `b_transport`.
unfoldable pub access_wait : Memory → Option WaitReq
access_wait m = if is_zero m.latency then none else some (WaitReq.time m.latency)

-- The rest of `b_transport`, after the wait.
unfoldable pub b_transport : Memory → GenericPayload → Memory × GenericPayload
unfolding write_bytes read_bytes
b_transport m txn =
    if fits txn.address (length txn.bytes) (length m.storage)
    then elim txn.command [
      | Command.read ↦
          (m, respond ResponseStatus.ok (record txn { bytes = read_data m.storage txn }))
      | Command.write ↦ (
        record m { storage = write_bytes txn.byte_enable 0 txn.bytes txn.address m.storage },
        respond ResponseStatus.ok txn,
      )
      | Command.ignore ↦ (m, respond ResponseStatus.ok txn)
    ]
    else (m, respond ResponseStatus.address_error txn)

-- The debug transport, with the number of bytes that it moved.
unfoldable pub transport_dbg : Memory → GenericPayload → Memory × GenericPayload × ℕ
transport_dbg m txn =
    let len = length txn.bytes in
    if fits txn.address len (length m.storage)
    then elim txn.command [
      | Command.read ↦ (
        m,
        respond ResponseStatus.ok (record txn { bytes = slice m.storage txn.address len }),
        len,
      )
      | Command.write ↦ (
        record m { storage = copy_into m.storage txn.address txn.bytes },
        respond ResponseStatus.ok txn,
        len,
      )
      | Command.ignore ↦ (m, respond ResponseStatus.ok txn, 0)
    ]
    else (m, respond ResponseStatus.address_error txn, 0)
