-- ===== src/Channels/Clock.antt =====
-- crates/systemrs-channels/src/clock.rs: the periodic clock. Half of its period, which the source
-- computes with floats, is an argument of the model.
use systemrs.Base.{ℕ, zero, suc, List, [], ◌∷◌, Bool, true, false, not, ◌≡◌, refl, if◌then◌else◌}
use systemrs.Time.{SimTime}
use systemrs.Kernel.Process.{WaitReq}
use systemrs.Kernel.Ctx.{Op}

pub record ClockState : Type 0 where
  pub cur : Bool
  pub new : Bool
  pub pending : Bool
  pub value_changed : ℕ
  pub posedge : ℕ
  pub negedge : ℕ

-- `Clock::new`, with the three events allocated.
unfoldable pub new_clock : ℕ → ℕ → ℕ → ClockState
new_clock value_changed posedge negedge = record {
  cur = false;
  new = false;
  pending = false;
  value_changed = value_changed;
  posedge = posedge;
  negedge = negedge;
}

-- `if old != new`, and the edge of the change.
abbrev edges : ClockState → List Op
edges st = elim st.cur [
  | false ↦ if st.new then Op.notify st.value_changed ∷ Op.notify st.posedge ∷ [] else []
  | true ↦ if st.new then [] else Op.notify st.value_changed ∷ Op.notify st.negedge ∷ []
]

unfoldable pub update : ClockState → List Op × ClockState
update st =
    if not st.pending then ([], st) else (edges st, record st { pending = false; cur = st.new })

-- The generator's method: the level that it keeps, its calls, and the state that it stages.
unfoldable pub generate : ℕ → SimTime → Bool → ClockState → Bool × List Op × ClockState
generate id half level st = (
  not level,
  Op.request_updates id ∷ Op.arms (WaitReq.time half) ∷ [],
  record st { new = not level; pending = true },
)

-- One activation of the generator and the update of its delta: the level, what the update notifies,
-- and the state.
unfoldable pub tick : ℕ → SimTime → Bool × ClockState → List Op × (Bool × ClockState)
unfolding update generate
tick id half (level, st) =
    let (level', ops, st₁) = generate id half level st in
    let (notes, st₂) = update st₁ in (notes, (level', st₂))

unfoldable pub ticks : ℕ → ℕ → SimTime → Bool × ClockState → Bool × ClockState
unfolding tick
ticks zero id half m = m
ticks (suc n) id half m = (tick id half (ticks n id half m)).1

abbrev pub is_odd : ℕ → Bool
is_odd zero = false
is_odd (suc n) = not (is_odd n)

ticks-level :
    (n id : ℕ) (half : SimTime) (v p q : ℕ)
    → ticks n id half (false, new_clock v p q)
      ≡ (is_odd n, record (new_clock v p q) { cur = is_odd n; new = is_odd n })
unfolding ticks tick update generate new_clock
ticks-level zero id half v p q = refl
ticks-level (suc n) id half v p q = rw (ticks-level n id half v p q) refl

edges-toggled :
    (level : Bool) (v p q : ℕ)
    → edges (record (new_clock v p q) { cur = level; new = not level; pending = true })
      ≡ Op.notify v ∷ Op.notify (if level then q else p) ∷ []
unfolding new_clock
edges-toggled true v p q = refl
edges-toggled false v p q = refl

-- A new clock alternates: after any number of activations the committed level is low if the number
-- is even and high if it is odd, and the next activation notifies the change and then the rising
-- edge if the number is even, the change and then the falling edge if it is odd.
pub tick-alternates :
    (n id : ℕ) (half : SimTime) (v p q : ℕ)
    → ((ticks n id half (false, new_clock v p q)).1.cur ≡ is_odd n)
      × ((tick id half (ticks n id half (false, new_clock v p q))).0
          ≡ Op.notify v ∷ Op.notify (if is_odd n then q else p) ∷ [])
unfolding tick update generate new_clock
tick-alternates n id half v p q =
    rw (ticks-level n id half v p q) (refl, edges-toggled (is_odd n) v p q)
