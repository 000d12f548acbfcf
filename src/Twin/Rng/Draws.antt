-- ===== src/Twin/Rng/Draws.antt =====
-- The draws of crates/systemrs-twin/src/rng.rs.
use systemrs.Base.{
  ℕ, zero, suc, ◌+◌, ◌-◌, ◌*◌, ◌%◌, ◌^◌, ◌<◌, ◌≤◌, some, none, ◌≡◌, ◌≢◌, refl, arith, ◌∙◌, sym, ltb,
  true, false,
}
use systemrs.Base.Bits.{bit_xor-lt}
use systemrs.Twin.Rng.{Rng, gamma, next_u64, gen_range, draws}

abbrev IsWord64 : ℕ → Type 0
IsWord64 n = n < 2 ^ 64

next_u64-IsWord64 : (r : Rng) → let (z, r2) = next_u64 r in IsWord64 z × IsWord64 r2.state
unfolding next_u64
next_u64-IsWord64 r = (bit_xor-lt 64 _ _ (omega arith) (omega arith), omega arith)

step_sum : (s n : ℕ) → ((s + gamma) % 2 ^ 64 + n * gamma) % 2 ^ 64 ≡ (s + suc n * gamma) % 2 ^ 64
step_sum s n = omega arith

state-after :
    (n : ℕ) (r : Rng)
    → IsWord64 r.state
    → (let (_, r2) = draws n r in r2.state) ≡ (r.state + n * gamma) % 2 ^ 64
unfolding draws next_u64
state-after zero r h = omega arith
state-after (suc n) r h =
    state-after n (record r { state = (r.state + gamma) % 2 ^ 64 }) (omega arith)
    ∙ step_sum r.state n

apart : (s n m : ℕ) → n < m → m < 2 ^ 64 → (s + n * gamma) % 2 ^ 64 ≢ (s + m * gamma) % 2 ^ 64
apart s n m h g e = omega arith

-- A generator is in no state twice within 2 ^ 64 draws.
pub draws-Apart :
    (n m : ℕ) (r : Rng)
    → IsWord64 r.state
    → n < m
    → m < 2 ^ 64
    → (let (_, r2) = draws n r in r2.state) ≢ (let (_, r3) = draws m r in r3.state)
draws-Apart n m r w h g e = apart r.state n m h g (sym (state-after n r w) ∙ e ∙ state-after m r w)

-- A draw from a range is in it, and never overflows; an empty range is a panic.
pub gen_range-InRange :
    (r : Rng) (lo hi : ℕ)
    → ((lo < hi) → (z : ℕ) × (r2 : Rng) × (gen_range r lo hi ≡ some (z, r2)) × (lo ≤ z) × (z < hi))
      × ((hi ≤ lo) → gen_range r lo hi ≡ none)
unfolding gen_range
gen_range-InRange r lo hi = (
  (λ h.
      let lower : ltb lo hi ≡ true = ground (arith, h) in
      let (z, r2) = next_u64 r in
      (lo + z % (hi - lo), r2, rw lower refl, omega arith, omega arith)),
  (λ h. let empty : ltb lo hi ≡ false = ground (arith, h) in rw empty refl),
)
