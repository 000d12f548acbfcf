-- ===== src/Quantum.antt =====
-- crates/systemrs-tlm-utils/src/global_quantum.rs and quantum.rs: temporal decoupling. The kernel's
-- present time and the quantum service, which the source reads through its handle, are arguments.
pub mod Grid
use systemrs.Base.{ℕ, ◌%◌, Bool, Option, none, some, if◌then◌else◌, leb}
use systemrs.Time.{SimTime, zero_time, is_zero, add, sub}
use systemrs.Kernel.Process.{WaitReq}

pub record GlobalQuantum : Type 0 where
  pub quantum : SimTime

-- `now.units() % self.quantum.units()` is under the test of the zero quantum.
unfoldable pub compute_local_quantum : GlobalQuantum → SimTime → SimTime
compute_local_quantum gq now =
    if is_zero gq.quantum then zero_time else sub gq.quantum (now % gq.quantum)

-- `set_global_quantum`: the service is registered or changed.
unfoldable pub set_global_quantum : SimTime → Option GlobalQuantum → Option GlobalQuantum
set_global_quantum quantum none = some (record { quantum = quantum })
set_global_quantum quantum (some gq) = some (record gq { quantum = quantum })

pub record QuantumKeeper : Type 0 where
  pub local_time : SimTime
  pub next_sync_point : SimTime

unfoldable pub new : QuantumKeeper
new = record { local_time = zero_time; next_sync_point = zero_time }

unfoldable pub inc : SimTime → QuantumKeeper → QuantumKeeper
inc t k = record k { local_time = add k.local_time t }

unfoldable pub set_local : SimTime → QuantumKeeper → QuantumKeeper
set_local t k = record k { local_time = t }

unfoldable pub get_current_time : SimTime → QuantumKeeper → SimTime
get_current_time now k = add now k.local_time

unfoldable pub need_sync : SimTime → QuantumKeeper → Bool
need_sync now k = leb k.next_sync_point (add now k.local_time)

abbrev pub local_quantum : Option GlobalQuantum → SimTime → SimTime
local_quantum none now = zero_time
local_quantum (some gq) now = compute_local_quantum gq now

-- `reset`, which is all of `start`.
unfoldable pub reset : SimTime → Option GlobalQuantum → QuantumKeeper → QuantumKeeper
unfolding compute_local_quantum
reset now gq k = record { local_time = zero_time; next_sync_point = add now (local_quantum gq now) }

-- `sync`: the wait, and the keeper once the thread is resumed, at time `now`.
unfoldable pub sync : SimTime → Option GlobalQuantum → QuantumKeeper → WaitReq × QuantumKeeper
unfolding reset
sync now gq k = (WaitReq.time k.local_time, reset now gq k)
