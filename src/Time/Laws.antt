-- ===== src/Time/Laws.antt =====
-- Laws of the saturating time arithmetic of crates/systemrs-time/src/sim_time.rs.
use systemrs.Base.{◌+◌, ◌≤◌, ◌<◌, ◌≡◌, arith}
use systemrs.Time.{
  SimTime, inf, add, display, Shown, shown_inf, zero_s, us, ns, ps, from_us, from_ns,
}

pub add_le_inf : (a b : SimTime) → add a b ≤ inf
unfolding add
add_le_inf a b = ground arith

pub le-add : (a b : SimTime) → a ≤ inf → a ≤ add a b
unfolding add
le-add a b h = ground arith

-- A step by a time that is not zero advances, unless the clock is at the end of time.
pub lt-add : (a b : SimTime) → a < inf → 0 < b → a < add a b
unfolding add
lt-add a b h p = ground arith

pub add_mono : (a b c : SimTime) → a ≤ b → add a c ≤ add b c
unfolding add
add_mono a b c h = ground arith

-- The time that a printed form denotes, by the unit constructors.
abbrev pub denotes : Shown → SimTime
denotes shown_inf = inf
denotes zero_s = 0
denotes (us n) = from_us n
denotes (ns n) = from_ns n
denotes (ps n) = n

-- Saturating addition of times is associative and commutative with zero as its unit and infinity
-- absorbing, over all times that fit a `u64`: the order in which delays are added up never changes
-- a time.
pub add_laws :
    (a b c : SimTime)
    → a ≤ inf
    → (add (add a b) c ≡ add a (add b c)) × (add a b ≡ add b a) × (add a 0 ≡ a) × (add inf b ≡ inf)
unfolding add
add_laws a b c h = (ground arith, ground arith, ground arith, ground arith)

-- Printing a time loses nothing: the unit constructor named in the printed form rebuilds the time,
-- for every time that fits a `u64`.
pub denotes-display : (t : SimTime) → t ≤ inf → denotes (display t) ≡ t
unfolding display from_us from_ns
denotes-display t h = ground arith

-- Short of the end of time, addition does not saturate.
pub add-eq : (a b : SimTime) → a + b ≤ inf → add a b ≡ a + b
unfolding add
add-eq a b h = ground arith
