-- ===== src/Twin/Rng.antt =====
-- crates/systemrs-twin/src/rng.rs: SplitMix64. A draw answers with the value and the new state.
pub mod Draws
use Prim.Native.Nat.{bit_xor}
use systemrs.Base.{
  ℕ, zero, suc, ◌+◌, ◌-◌, ◌*◌, ◌/◌, ◌%◌, ◌^◌, List, [], ◌∷◌, Option, none, some, ltb, if◌then◌else◌,
}

pub record Rng : Type 0 where
  pub state : ℕ
  pub seed : ℕ

abbrev pub new : ℕ → Rng
new seed = record { state = seed; seed = seed }

-- `0x9E37_79B9_7F4A_7C15`
abbrev pub gamma : ℕ
gamma = 0x9e3779b97f4a7c15

-- `(z ^ (z >> shift)).wrapping_mul(factor)`
abbrev pub mix : ℕ → ℕ → ℕ → ℕ
mix shift factor z = bit_xor z (z / 2 ^ shift) * factor % 2 ^ 64

-- A sum in which `u64` overflows is a panic of a debug build, as the check of `gen_range` is of every
-- build.
unfoldable pub next_u64 : Rng → ℕ × Rng
next_u64 r =
    let s = (r.state + gamma) % 2 ^ 64 in
    let z = mix 27 0x94d049bb133111eb (mix 30 0xbf58476d1ce4e5b9 s) in
    (bit_xor z (z / 2 ^ 31), record r { state = s })

unfoldable pub next_u32 : Rng → ℕ × Rng
unfolding next_u64
next_u32 r = let (z, r2) = next_u64 r in (z / 2 ^ 32, r2)

-- `assert!(lo < hi)` comes first.
unfoldable pub gen_range : Rng → ℕ → ℕ → Option (ℕ × Rng)
unfolding next_u64
gen_range r lo hi =
    let (z, r2) = next_u64 r in if ltb lo hi then some (lo + z % (hi - lo), r2) else none

-- `n` draws.
unfoldable pub draws : ℕ → Rng → List ℕ × Rng
unfolding next_u64
draws zero r = ([], r)
draws (suc n) r = let (z, r2) = next_u64 r in let (zs, r3) = draws n r2 in (z ∷ zs, r3)
