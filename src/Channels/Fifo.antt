-- ===== src/Channels/Fifo.antt =====
-- crates/systemrs-channels/src/fifo.rs: the bounded FIFO. An operation gives its result, the calls
-- that it makes of the kernel, and the state that it leaves. Each counter is a `usize`, which the
-- length of the buffer keeps far from its bound.
pub mod Order
pub mod Visibility
use systemrs.Base.{
  ℕ, ◌+◌, ◌-◌, List, [], ◌∷◌, ◌++◌, Option, none, some, ◌⊎◌, inl, inr, length, if◌then◌else◌, ltb,
  leb, ◌==◌,
}
use systemrs.Kernel.Process.{WaitReq}
use systemrs.Kernel.Ctx.{Op}

pub record FifoState {ℓ} (A : Type ℓ) : Type ℓ where
  pub buf : List A
  pub cap : ℕ
  pub num_readable : ℕ
  pub num_read : ℕ
  pub num_written : ℕ
  pub data_written : ℕ
  pub data_read : ℕ

abbrev pub notify_if_some : ℕ → ℕ → List Op
notify_if_some count ev = if ltb 0 count then Op.notify ev ∷ [] else []

module _ {ℓ} {A : Type ℓ} where
  -- `Fifo::new`, after the two events are allocated.
  unfoldable pub new : ℕ → ℕ → ℕ → FifoState A
  new cap data_written data_read = record {
    buf = [];
    cap = cap;
    num_readable = 0;
    num_read = 0;
    num_written = 0;
    data_written = data_written;
    data_read = data_read;
  }

  abbrev pub available : FifoState A → ℕ
  available st = st.num_readable - st.num_read

  unfoldable pub try_get : ℕ → FifoState A → Option A × List Op × FifoState A
  try_get id st = if available st == 0 then (none, [], st) else elim st.buf [
    | [] ↦ (none, [], st)
    | value ∷ rest ↦ (
      some value,
      Op.request_updates id ∷ [],
      record st { buf = rest; num_read = st.num_read + 1 },
    )
  ]

  -- The first component is the value of `Err`: `none` says that the value is in the buffer.
  unfoldable pub try_put : ℕ → A → FifoState A → Option A × List Op × FifoState A
  try_put id value st = if leb st.cap (length st.buf) then (some value, [], st) else (
    none,
    Op.request_updates id ∷ [],
    record st { buf = st.buf ++ value ∷ []; num_written = st.num_written + 1 },
  )

  unfoldable pub update : FifoState A → List Op × FifoState A
  update st = (
    notify_if_some st.num_read st.data_read ++ notify_if_some st.num_written st.data_written,
    record st { num_readable = length st.buf; num_read = 0; num_written = 0 },
  )

  -- One round of the loop of `get`: the value, or the wait of the round.
  unfoldable pub get_round : ℕ → FifoState A → (A ⊎ WaitReq) × List Op × FifoState A
  unfolding try_get
  get_round id st =
      let (got, ops, st') = try_get id st in
      elim got [
        | some value ↦ (inl value, ops, st')
        | none ↦ (inr (WaitReq.event st.data_written), ops, st')
      ]

  -- One round of the loop of `put`: done, or the value to try again and the wait of the round.
  unfoldable pub put_round :
      ℕ → A → FifoState A → (Unit {0} ⊎ (A × WaitReq)) × List Op × FifoState A
  unfolding try_put
  put_round id value st =
      let (refused, ops, st') = try_put id value st in
      elim refused [
        | none ↦ (inl tt, ops, st')
        | some returned ↦ (inr (returned, WaitReq.event st.data_read), ops, st')
      ]
