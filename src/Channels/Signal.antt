-- ===== src/Channels/Signal.antt =====
-- crates/systemrs-channels/src/signal.rs: the double-buffered value channels, `Signal` and `Buffer`.
-- An operation gives the calls that it makes of the kernel and the state that it leaves.
use systemrs.Base.{
  ℕ, List, [], ◌∷◌, Bool, true, false, not, ◌&&◌, ◌||◌, ◌≡◌, refl, if◌then◌else◌, last_or, is_cons,
}
use systemrs.Kernel.Ctx.{Op}

pub record SignalState {ℓ} (A : Type ℓ) : Type ℓ where
  pub cur : A
  pub new : A
  pub pending : Bool
  pub always_fire : Bool
  pub value_changed : ℕ

module _ {ℓ} {A : Type ℓ} where
  -- `register`, with the event allocated: a `Signal` has `always_fire` false, a `Buffer` true.
  unfoldable pub register : A → Bool → ℕ → SignalState A
  register init always_fire value_changed = record {
    cur = init;
    new = init;
    pending = false;
    always_fire = always_fire;
    value_changed = value_changed;
  }

  unfoldable pub read : SignalState A → A
  read st = st.cur

  unfoldable pub write : ℕ → A → SignalState A → List Op × SignalState A
  write id value st = (Op.request_updates id ∷ [], record st { new = value; pending = true })

  -- `update`, over the `PartialEq` of the values.
  unfoldable pub update : (A → A → Bool) → SignalState A → List Op × SignalState A
  update same st = if not st.pending then ([], st) else (
    if st.always_fire || not (same st.cur st.new) then Op.notify st.value_changed ∷ [] else [],
    record st { pending = false; cur = st.new },
  )

  -- The writes of one delta.
  unfoldable pub write_all : ℕ → List A → SignalState A → SignalState A
  unfolding write
  write_all id [] st = st
  write_all id (value ∷ values) st = write_all id values (write id value st).1

  write_all-staged :
      (id : ℕ) (values : List A) (value : A) (st : SignalState A)
      → write_all id values (write id value st).1
        ≡ record st { new = last_or value values; pending = true }
  unfolding write_all write
  write_all-staged id [] value st = refl
  write_all-staged id (next ∷ values) value st = write_all-staged id values next st

  -- In a delta that starts with nothing staged, every read gives the value that was committed before
  -- it, whatever is written; the update commits the value that was written last and leaves nothing
  -- staged; it notifies the change event once if anything was written and, for a signal, the
  -- committed value differs from the one before; and a delta without a write changes nothing.
  pub update-write_all :
      (same : A → A → Bool) (id : ℕ) (values : List A) (st : SignalState A)
      → st.pending ≡ false
      → (read (write_all id values st) ≡ read st)
        × (read (update same (write_all id values st)).1 ≡ last_or (read st) values)
        × ((update same (write_all id values st)).1.pending ≡ false)
        × ((update same (write_all id values st)).0 ≡ (
            if is_cons values && (st.always_fire || not (same (read st) (last_or (read st) values)))
            then Op.notify st.value_changed ∷ []
            else []))
  unfolding write_all update read
  update-write_all same id [] st idle = rw (idle) (refl, refl, refl, refl)
  update-write_all same id (value ∷ values) st idle =
      rw (write_all-staged id values value st) (refl, refl, refl, refl)
