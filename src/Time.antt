-- ===== src/Time.antt =====
-- crates/systemrs-time/src/sim_time.rs and resolution.rs: simulation time as a count of resolution
-- units in a `u64`. A time is its count; `SimTime::from_units`, `units` and `from_ps` are the
-- identity on it. `scaled` (a float) is not modelled.
pub mod Laws
use systemrs.Base.{ℕ, ◌+◌, ◌-◌, ◌*◌, ◌/◌, ◌%◌, Bool, if◌then◌else◌, ltb, ◌==◌, u64_max}

abbrev pub SimTime : Type 0
SimTime = ℕ

-- `SimTime::ZERO`
abbrev pub zero_time : SimTime
zero_time = 0

-- `SimTime::INF`
abbrev pub inf : SimTime
inf = u64_max

-- `u64::saturating_mul`, as the unit constructors use it
unfoldable pub saturating_mul : ℕ → ℕ → ℕ
saturating_mul a b = if ltb u64_max (a * b) then u64_max else a * b

unfoldable pub from_ns : ℕ → SimTime
unfolding saturating_mul
from_ns n = saturating_mul n 1000

unfoldable pub from_us : ℕ → SimTime
unfolding saturating_mul
from_us n = saturating_mul n 1000000

abbrev pub is_zero : SimTime → Bool
is_zero t = t == 0

abbrev pub is_inf : SimTime → Bool
is_inf t = t == u64_max

-- `Add` and `AddAssign`: saturating
unfoldable pub add : SimTime → SimTime → SimTime
add a b = if ltb u64_max (a + b) then u64_max else a + b

-- `Sub`: saturating at zero, as `-` on ℕ is
unfoldable pub sub : SimTime → SimTime → SimTime
sub a b = a - b

-- What `Display` prints: a count and its unit.
pub data Shown : Type 0 where
  shown_inf : Shown
  zero_s : Shown
  us ns ps : ℕ → Shown

unfoldable pub display : SimTime → Shown
display t =
    if is_inf t
    then shown_inf
    else if t == 0
    then zero_s
    else if t % 1000000 == 0
    then us (t / 1000000)
    else if t % 1000 == 0
    then ns (t / 1000)
    else ps t

abbrev pub Resolution : Type 0
Resolution = ℕ

abbrev pub picosecond : Resolution
picosecond = 1000
