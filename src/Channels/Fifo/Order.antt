-- ===== src/Channels/Fifo/Order.antt =====
-- What goes into the FIFO of crates/systemrs-channels/src/fifo.rs and what comes out of it, over any
-- sequence of its operations.
use systemrs.Base.{
  ℕ, ◌+◌, ◌≤◌, List, [], ◌∷◌, ◌++◌, Option, none, some, inl, inr, Bool-cases, ◌≡◌, refl, length,
  length-append, List-cases, arith, leb, ◌==◌, sym,
}
use mathlib.Core.List.{append-nil, append_assoc}
use systemrs.Channels.Fifo.{FifoState, try_get, try_put, update, available}

pub data Action {ℓ} (A : Type ℓ) : Type ℓ where
  puts : A → Action A
  gets updates : Action A

module _ {ℓ} {A : Type ℓ} where
  -- The values of an attempt that went in, and those that came out.
  abbrev pub accepted : A → Option A → List A
  accepted value none = value ∷ []
  accepted value (some returned) = []

  abbrev pub taken : Option A → List A
  taken none = []
  taken (some value) = value ∷ []

  unfoldable pub act : ℕ → Action A → FifoState A → List A × List A × FifoState A
  unfolding try_get try_put update
  act id (puts value) st =
      let (refused, ops, st') = try_put id value st in (accepted value refused, [], st')
  act id gets st = let (got, ops, st') = try_get id st in ([], taken got, st')
  act id updates st = ([], [], (update st).1)

  -- The values that go in over a sequence of attempts and updates, those that come out, and the state
  -- that is left.
  unfoldable pub act_all : ℕ → List (Action A) → FifoState A → List A × List A × FifoState A
  unfolding act
  act_all id [] st = ([], [], st)
  act_all id (action ∷ rest) st =
      let (ins, outs, st₁) = act id action st in
      let (ins', outs', st₂) = act_all id rest st₁ in (ins ++ ins', outs ++ outs', st₂)

  -- The counters account for the buffer, which holds at most the capacity, and no more is read in a
  -- delta than was readable at its start.
  pub record WellFormed (st : FifoState A) : Type 0 where
    pub counted : length st.buf + st.num_read ≡ st.num_readable + st.num_written
    pub bounded : length st.buf ≤ st.cap
    pub committed : st.num_read ≤ st.num_readable

  act-WellFormed :
      (id : ℕ) (action : Action A) (st : FifoState A)
      → WellFormed st
      → WellFormed (act id action st).2
  unfolding act try_get try_put update
  act-WellFormed id (puts value) st w = elim (Bool-cases (leb st.cap (length st.buf))) [
    | inl full ↦ rw (full) w
    | inr room ↦ rw (room) (record {
      counted = omega (arith, w.counted, length-append st.buf (value ∷ []));
      bounded = ground (arith, length-append st.buf (value ∷ []));
      committed = w.committed;
    })
  ]
  act-WellFormed id gets st w = elim (Bool-cases (available st == 0)) [
    | inl none_left ↦ rw (none_left) w
    | inr some_left ↦ elim (List-cases st.buf) [
      | inl empty ↦ rw (some_left, empty) w
      | inr (value, rest, filled) ↦
          rw (some_left, filled)
            (record {
              counted = ground (arith, w.counted);
              bounded = ground (arith, w.bounded);
              committed = ground (arith, w.committed);
            })
    ]
  ]
  act-WellFormed id updates st w = record {
    counted = refl;
    bounded = w.bounded;
    committed = omega arith;
  }

  act-order :
      (id : ℕ) (action : Action A) (st : FifoState A)
      → (act id action st).1 ++ (act id action st).2.buf ≡ st.buf ++ (act id action st).0
  unfolding act try_get try_put update
  act-order id (puts value) st = elim (Bool-cases (leb st.cap (length st.buf))) [
    | inl full ↦ rw (full) (sym (append-nil st.buf))
    | inr room ↦ rw (room) refl
  ]
  act-order id gets st = elim (Bool-cases (available st == 0)) [
    | inl none_left ↦ rw (none_left) (sym (append-nil st.buf))
    | inr some_left ↦ elim (List-cases st.buf) [
      | inl empty ↦ rw (some_left, empty) empty
      | inr (value, rest, filled) ↦ rw (some_left, filled) (sym (append-nil (value ∷ rest)))
    ]
  ]
  act-order id updates st = sym (append-nil st.buf)

  -- Over any sequence of reads, writes and updates, from a state whose counters account for its
  -- buffer, no value is lost, repeated or overtaken: the values that come out, followed by those left
  -- in the buffer, are the values that were in the buffer followed by the accepted ones. The counters
  -- still account for the buffer, which never holds more than the capacity.
  pub act_all-order :
      (id : ℕ) (actions : List (Action A)) (st : FifoState A)
      → WellFormed st
      → ((act_all id actions st).1 ++ (act_all id actions st).2.buf
          ≡ st.buf ++ (act_all id actions st).0)
        × WellFormed (act_all id actions st).2
  unfolding act_all
  act_all-order id [] st w = (sym (append-nil st.buf), w)
  act_all-order id (action ∷ rest) st w =
      let (kept, w') = act_all-order id rest (act id action st).2 (act-WellFormed id action st w) in
      (
        cc (
          kept,
          act-order id action st,
          append_assoc (act id action st).1 (act_all id rest (act id action st).2).1
              (act_all id rest (act id action st).2).2.buf,
          append_assoc (act id action st).1 (act id action st).2.buf
              (act_all id rest (act id action st).2).0,
          append_assoc st.buf (act id action st).0 (act_all id rest (act id action st).2).0,
        ),
        w',
      )
