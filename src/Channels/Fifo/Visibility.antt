-- ===== src/Channels/Fifo/Visibility.antt =====
-- What is readable within one delta of the FIFO of crates/systemrs-channels/src/fifo.rs, and what its
-- update then notifies.
use systemrs.Base.{
  ℕ, ◌+◌, zero, suc, List, [], ◌∷◌, ◌++◌, inl, inr, Bool-cases, List-cases, false, ◌≡◌, refl,
  length, length-append, take, All, arith, leb, ◌==◌, ap, sym, ◌∙◌,
}
use mathlib.Core.List.{append-nil, append_assoc}
use native.Mathlib.Numerals.{unary_clauses}
use systemrs.Channels.Fifo.{FifoState, try_get, try_put, update, available, notify_if_some}
use systemrs.Channels.Fifo.Order.{Action, puts, gets, updates, act, act_all}

positive : (n : ℕ) → (suc n == 0) ≡ false
positive n = ground arith

module _ {ℓ} {A : Type ℓ} where
  -- An attempt to read or to write, which is what a process does in its delta.
  abbrev pub IsAttempt : Action A → Type 0
  IsAttempt (puts value) = Unit {0}
  IsAttempt gets = Unit {0}
  IsAttempt updates = ⊥

  abbrev pub reads : List (Action A) → ℕ
  reads [] = 0
  reads (gets ∷ rest) = suc (reads rest)
  reads (_ ∷ rest) = reads rest

  take_nil : (n : ℕ) → take {A = A} n [] ≡ []
  take_nil zero = refl
  take_nil (suc n) = refl

  -- The values that were committed and are not yet read are the first ones of the buffer.
  Committed : List A → FifoState A → Type ℓ
  Committed front st =
      (written : List A) × (st.buf ≡ front ++ written) × (available st ≡ length front)

  act_all-Committed :
      (id : ℕ) (actions : List (Action A)) (front : List A) (st : FifoState A)
      → All IsAttempt actions
      → Committed front st
      → (act_all id actions st).1 ≡ take (reads actions) front
  unfolding act_all act try_get try_put Committed
  act_all-Committed id [] front st h c = refl
  act_all-Committed id (puts value ∷ rest) front st (_, h) (written, e, n) =
      elim (Bool-cases (leb st.cap (length st.buf))) [
        | inl full ↦ rw (full) (act_all-Committed id rest front st h (written, e, n))
        | inr room ↦ rw (room) (
            act_all-Committed id rest front
              (record st { buf = st.buf ++ value ∷ []; num_written = st.num_written + 1 }) h
              (written ++ value ∷ [], rw (e) (append_assoc front written (value ∷ [])), n))
      ]
  act_all-Committed id (gets ∷ rest) [] st (_, h) (written, e, n) = rw (n) (
      act_all-Committed id rest [] st h (written, e, n)
      ∙ take_nil (reads rest)
      ∙ sym (take_nil (reads (gets ∷ rest))))
  act_all-Committed id (gets ∷ rest) (value ∷ front) st (_, h) (written, e, n) =
      rw (n, e, positive (length front))
        (ap (λ outs. value ∷ outs)
          (act_all-Committed id rest front
            (record st { buf = front ++ written; num_read = st.num_read + 1 }) h
            (written, refl, omega (arith, n))))
  act_all-Committed id (updates ∷ rest) front st (h, _) c = absurd h

  -- The counters of a delta count the values that came out of it and those that went in.
  Counts : FifoState A → List A × List A × FifoState A → Type 0
  Counts st (ins, outs, st') =
      (st'.num_read ≡ length outs + st.num_read)
      × (st'.num_written ≡ length ins + st.num_written)
      × (st'.data_read ≡ st.data_read)
      × (st'.data_written ≡ st.data_written)

  act-Counts :
      (id : ℕ) (action : Action A) (st : FifoState A)
      → IsAttempt action
      → Counts st (act id action st)
  unfolding act try_get try_put Counts
  act-Counts id (puts value) st h = elim (Bool-cases (leb st.cap (length st.buf))) [
    | inl full ↦ rw (full) (omega arith, omega arith, refl, refl)
    | inr room ↦ rw (room) (omega arith, omega arith, refl, refl)
  ]
  act-Counts id gets st h = elim (Bool-cases (available st == 0)) [
    | inl none_left ↦ rw (none_left) (omega arith, omega arith, refl, refl)
    | inr some_left ↦ elim (List-cases st.buf) [
      | inl empty ↦ rw (some_left, empty) (omega arith, omega arith, refl, refl)
      | inr (value, rest, filled) ↦ rw (some_left, filled) (omega arith, omega arith, refl, refl)
    ]
  ]
  act-Counts id updates st h = absurd h

  act_all-Counts :
      (id : ℕ) (actions : List (Action A)) (st : FifoState A)
      → All IsAttempt actions
      → Counts st (act_all id actions st)
  unfolding act_all Counts
  act_all-Counts id [] st h = (omega arith, omega arith, refl, refl)
  act_all-Counts id (action ∷ rest) st (here, h) =
      let (r, w, er, ew) = act-Counts id action st here in
      let st₁ = (act id action st).2 in
      let (r', w', er', ew') = act_all-Counts id rest st₁ h in
      (
        omega (arith, length-append (act id action st).1 (act_all id rest st₁).1),
        omega (arith, length-append (act id action st).0 (act_all id rest st₁).0),
        er' ∙ er,
        ew' ∙ ew,
      )

  -- In a delta that starts with an update, the reads give the first values of the buffer that the
  -- update saw, as many as there are reads, whatever is written in between; a read past them finds
  -- nothing. The update that ends the delta notifies the read event if and only if a value came out,
  -- the write event if and only if a value went in, and makes the whole buffer readable.
  pub delta-visible :
      (id : ℕ) (actions : List (Action A)) (st : FifoState A)
      → All IsAttempt actions
      → ((act_all id actions (update st).1).1 ≡ take (reads actions) st.buf)
        × ((update (act_all id actions (update st).1).2).0
            ≡ notify_if_some (length (act_all id actions (update st).1).1) st.data_read
              ++ notify_if_some (length (act_all id actions (update st).1).0) st.data_written)
        × (available (update (act_all id actions (update st).1).2).1
            ≡ length (act_all id actions (update st).1).2.buf)
  unfolding update Counts Committed
  delta-visible id actions st h =
      let start : FifoState A = record st {
        num_readable = length st.buf;
        num_read = 0;
        num_written = 0;
      } in
      let (r, w, er, ew) = act_all-Counts id actions start h in
      (
        act_all-Committed id actions st.buf start h ([], sym (append-nil st.buf), omega arith),
        rw (r, w, er, ew) (simp unary_clauses refl),
        omega arith,
      )
