-- ===== src/BusMaster.antt =====
-- crates/systemrs-tlm-utils/src/bus_master.rs: reads and writes through an initiator socket. The
-- socket's blocking transport, with what it changes, is an argument; a `?` is the case on a result.
use systemrs.Base.{ℕ, ◌/◌, ◌%◌, List, [], ◌∷◌}
use systemrs.Base.Word.{to_le_bytes, from_le_bytes}
use systemrs.Time.{SimTime, zero_time}
use systemrs.Tlm.Payload.{GenericPayload, ResponseStatus, new_read, new_write}

pub data BusFault : Type 0 where
  address_error command_error byte_enable_error : BusFault
  other : ResponseStatus → BusFault

pub data Result {ℓ} (A : Type ℓ) : Type ℓ where
  ok : A → Result A
  err : BusFault → Result A

unfoldable pub from_status : ResponseStatus → BusFault
from_status ResponseStatus.address_error = BusFault.address_error
from_status ResponseStatus.command_error = BusFault.command_error
from_status ResponseStatus.byte_enable_error = BusFault.byte_enable_error
from_status status = BusFault.other status

abbrev generic : BusFault
generic = BusFault.other ResponseStatus.generic_error

-- What the response of a transaction makes of its answer.
abbrev answer {ℓ} : {A : Type ℓ} → A → ResponseStatus → Result A
unfolding from_status
answer a ResponseStatus.ok = Result.ok a
answer a status = Result.err (from_status status)

-- The width of an answer is checked again.
unfoldable pub as_u32_le : Result (List ℕ) → Result ℕ
as_u32_le (Result.ok (a ∷ b ∷ c ∷ d ∷ [])) = Result.ok (from_le_bytes (a ∷ b ∷ c ∷ d ∷ []))
as_u32_le (Result.ok _) = Result.err generic
as_u32_le (Result.err e) = Result.err e

unfoldable pub as_u16_le : Result (List ℕ) → Result ℕ
as_u16_le (Result.ok (a ∷ b ∷ [])) = Result.ok (from_le_bytes (a ∷ b ∷ []))
as_u16_le (Result.ok _) = Result.err generic
as_u16_le (Result.err e) = Result.err e

unfoldable pub as_u8_first : Result (List ℕ) → Result ℕ
as_u8_first (Result.ok (a ∷ _)) = Result.ok a
as_u8_first (Result.ok []) = Result.err generic
as_u8_first (Result.err e) = Result.err e

module _ {ℓ} {S : Type ℓ}
    (transport : S → GenericPayload → SimTime → S × GenericPayload × SimTime) where
  unfoldable pub read : S → ℕ → ℕ → S × Result (List ℕ)
  unfolding from_status
  read s addr len =
      let (s', txn, delay) = transport s (new_read addr len) zero_time in
      (s', answer txn.bytes txn.response_status)

  unfoldable pub write : S → ℕ → List ℕ → S × Result (Unit {0})
  unfolding from_status
  write s addr bytes =
      let (s', txn, delay) = transport s (new_write addr bytes) zero_time in
      (s', answer tt txn.response_status)

  unfoldable pub read32 : S → ℕ → S × Result ℕ
  unfolding read as_u32_le
  read32 s addr = let (s', bytes) = read s addr 4 in (s', as_u32_le bytes)

  unfoldable pub read16 : S → ℕ → S × Result ℕ
  unfolding read as_u16_le
  read16 s addr = let (s', bytes) = read s addr 2 in (s', as_u16_le bytes)

  unfoldable pub read8 : S → ℕ → S × Result ℕ
  unfolding read as_u8_first
  read8 s addr = let (s', bytes) = read s addr 1 in (s', as_u8_first bytes)

  unfoldable pub write32 : S → ℕ → ℕ → S × Result (Unit {0})
  unfolding write
  write32 s addr value = write s addr (to_le_bytes value)

  unfoldable pub write16 : S → ℕ → ℕ → S × Result (Unit {0})
  unfolding write
  write16 s addr value = write s addr (value % 256 ∷ value / 256 % 256 ∷ [])

  unfoldable pub write8 : S → ℕ → ℕ → S × Result (Unit {0})
  unfolding write
  write8 s addr value = write s addr (value ∷ [])
