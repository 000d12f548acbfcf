-- ===== src/Tlm/Payload.antt =====
-- crates/systemrs-tlm2/src/gp.rs: the generic payload. Its type-keyed extensions, which hold values of
-- any type, are left out.
use systemrs.Base.{
  ℕ, ◌%◌, List, [], ◌∷◌, Bool, true, false, Option, none, some, not, length, get_elem?, ◌==◌,
  replicate,
}

pub data Command : Type 0 where
  read write ignore : Command

pub data ResponseStatus : Type 0 where
  incomplete ok generic_error address_error command_error burst_error byte_enable_error :
      ResponseStatus

abbrev pub is_ok : ResponseStatus → Bool
is_ok ResponseStatus.ok = true
is_ok _ = false

-- The discriminants of the errors are negative.
abbrev pub is_error : ResponseStatus → Bool
is_error ResponseStatus.incomplete = false
is_error ResponseStatus.ok = false
is_error _ = true

pub data ByteEnable : Type 0 where
  all : ByteEnable
  mask : List ℕ → ByteEnable

abbrev pub not_zero : Option ℕ → Bool
not_zero none = false
not_zero (some b) = not (b == 0)

unfoldable pub enabled : ByteEnable → ℕ → Bool
enabled ByteEnable.all i = true
enabled (ByteEnable.mask []) i = false
enabled (ByteEnable.mask (b ∷ bs)) i = not_zero (get_elem? (b ∷ bs) (i % length (b ∷ bs)))

pub record GenericPayload : Type 0 where
  pub command : Command
  pub address : ℕ
  pub bytes : List ℕ
  pub streaming_width : ℕ
  pub byte_enable : ByteEnable
  pub response_status : ResponseStatus
  pub dmi_allowed : Bool

-- `GenericPayload::new`, and what `reset` leaves; `new_read` and `new_write` are `read` and `write`.
unfoldable pub new : GenericPayload
new = record {
  command = Command.ignore;
  address = 0;
  bytes = [];
  streaming_width = 0;
  byte_enable = ByteEnable.all;
  response_status = ResponseStatus.incomplete;
  dmi_allowed = false;
}

unfoldable pub new_read : ℕ → ℕ → GenericPayload
unfolding new
new_read address len = record new {
  command = Command.read;
  address = address;
  bytes = replicate len 0;
}

unfoldable pub new_write : ℕ → List ℕ → GenericPayload
unfolding new
new_write address bytes = record new { command = Command.write; address = address; bytes = bytes }
