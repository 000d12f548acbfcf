-- ===== src/Hart/Socket.antt =====
-- crates/systemrs-examples/src/rv32i.rs, `SocketBus`: the bus of a hart that goes through the socket.
pub mod OverMemory
pub mod Words
use Prim.Native.Nat.{bit_or}
use systemrs.Base.{ℕ, zero, suc, ◌*◌, List, [], ◌∷◌, Bool, true, false, Option, none, some, take}
use systemrs.Base.Word.{◌<<<◌, to_le_bytes}
use systemrs.Time.{SimTime}
use systemrs.Tlm.Payload.{GenericPayload}
use systemrs.BusMaster
use systemrs.BusMaster.{Result}
use systemrs.Hart.{Bus}

-- `for (i, &byte) in bytes.iter().enumerate().take(4)`
unfoldable pub or_bytes : ℕ → ℕ → List ℕ → ℕ
or_bytes i value [] = value
or_bytes i value (byte ∷ bytes) = or_bytes (suc i) (bit_or value (byte <<< (8 * i))) bytes

abbrev read_value {ℓ} : {S : Type ℓ} → S × Result (List ℕ) → S × Option ℕ
read_value (s, Result.ok bytes) = (s, some (or_bytes 0 0 (take 4 bytes)))
read_value (s, Result.err e) = (s, none)

abbrev wrote {ℓ} : {S : Type ℓ} → S × Result (Unit {0}) → S × Bool
wrote (s, Result.ok _) = (s, true)
wrote (s, Result.err e) = (s, false)

module _ {ℓ} {S : Type ℓ}
    (transport : S → GenericPayload → SimTime → S × GenericPayload × SimTime) where
  unfoldable pub read : S → ℕ → ℕ → S × Option ℕ
  unfolding or_bytes BusMaster.read
  read s addr len = read_value (BusMaster.read transport s addr len)

  -- `value.to_le_bytes()[..len]`, of at most four bytes.
  unfoldable pub write : S → ℕ → ℕ → ℕ → S × Bool
  unfolding BusMaster.write
  write s addr value len = wrote (BusMaster.write transport s addr (take len (to_le_bytes value)))

  abbrev pub socket_bus : Bus S
  socket_bus = record { read = read; write = write }
