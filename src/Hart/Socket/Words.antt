-- ===== src/Hart/Socket/Words.antt =====
-- The bus through the socket, of crates/systemrs-examples/src/rv32i.rs, reads words.
use Prim.Native.Nat.{bit_or}
use systemrs.Base.{ℕ, suc, ◌*◌, List, [], ◌∷◌, arith, take}
use systemrs.Base.Word.{◌<<<◌}
use systemrs.Time.{SimTime}
use systemrs.Tlm.Payload.{GenericPayload}
use systemrs.BusMaster
use systemrs.BusMaster.{Result}
use systemrs.Hart.Bounds.{IsWord, AllSome, IsWordBus, bit_or-IsWord}
use systemrs.Hart.Socket.{read, socket_bus, or_bytes, read_value}

or_bytes-IsWord : (i v : ℕ) (bytes : List ℕ) → IsWord v → IsWord (or_bytes i v bytes)
unfolding or_bytes
or_bytes-IsWord i v [] h = h
or_bytes-IsWord i v (b ∷ bs) h =
    or_bytes-IsWord (suc i) (bit_or v (b <<< (8 * i))) bs
      (bit_or-IsWord v (b <<< (8 * i)) h (omega arith))

module _ {ℓ} {S : Type ℓ}
    (transport : S → GenericPayload → SimTime → S × GenericPayload × SimTime) where
  read_value-IsWord : (r : S × Result (List ℕ)) → AllSome IsWord (read_value r).1
  read_value-IsWord (s, Result.ok bytes) = or_bytes-IsWord 0 0 (take 4 bytes) (omega arith)
  read_value-IsWord (s, Result.err e) = tt

  pub socket_bus-IsWordBus : IsWordBus (socket_bus transport)
  unfolding read
  socket_bus-IsWordBus s addr len = read_value-IsWord (BusMaster.read transport s addr len)
