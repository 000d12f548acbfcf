-- ===== src/Tests/Channels.antt =====
-- The theorems on the channels at small states.
use systemrs.Base.{
  ℕ, ◌≡◌, refl, [], ◌∷◌, ◌++◌, true, false, not, ◌&&◌, ◌||◌, if◌then◌else◌, ◌==◌, take, length,
  last_or, arith,
}
use systemrs.Kernel.Ctx.{Op}
use systemrs.Channels.Fifo.{FifoState, available, notify_if_some}
use systemrs.Channels.Fifo
use systemrs.Channels.Fifo.Order.{puts, gets, updates, act_all, WellFormed, act_all-order}
use systemrs.Channels.Fifo.Visibility.{reads, delta-visible}
use systemrs.Channels.Signal.{SignalState, read, write_all, update-write_all}
use systemrs.Channels.Signal

-- Two committed values, one of them read, and one written since.
abbrev three : FifoState ℕ
three = record {
  buf = 8 ∷ 9 ∷ [];
  cap = 3;
  num_readable = 2;
  num_read = 1;
  num_written = 1;
  data_written = 0;
  data_read = 1;
}

three-WellFormed : WellFormed three
three-WellFormed = record { counted = refl; bounded = omega arith; committed = omega arith }

act_all-order_example :
    ((act_all 5 (puts 10 ∷ puts 11 ∷ gets ∷ gets ∷ updates ∷ gets ∷ []) three).1
        ++ (act_all 5 (puts 10 ∷ puts 11 ∷ gets ∷ gets ∷ updates ∷ gets ∷ []) three).2.buf
      ≡ three.buf ++ (act_all 5 (puts 10 ∷ puts 11 ∷ gets ∷ gets ∷ updates ∷ gets ∷ []) three).0)
    × WellFormed (act_all 5 (puts 10 ∷ puts 11 ∷ gets ∷ gets ∷ updates ∷ gets ∷ []) three).2
act_all-order_example =
    act_all-order 5 (puts 10 ∷ puts 11 ∷ gets ∷ gets ∷ updates ∷ gets ∷ []) three three-WellFormed

delta-visible_example :
    ((act_all 5 (gets ∷ puts 4 ∷ gets ∷ gets ∷ []) (Fifo.update three).1).1
      ≡ take (reads {A = ℕ} (gets ∷ puts 4 ∷ gets ∷ gets ∷ [])) three.buf)
    × ((Fifo.update (act_all 5 (gets ∷ puts 4 ∷ gets ∷ gets ∷ []) (Fifo.update three).1).2).0
        ≡ notify_if_some
            (length (act_all 5 (gets ∷ puts 4 ∷ gets ∷ gets ∷ []) (Fifo.update three).1).1)
            three.data_read
          ++ notify_if_some
              (length (act_all 5 (gets ∷ puts 4 ∷ gets ∷ gets ∷ []) (Fifo.update three).1).0)
              three.data_written)
    × (available
          (Fifo.update (act_all 5 (gets ∷ puts 4 ∷ gets ∷ gets ∷ []) (Fifo.update three).1).2).1
        ≡ length (act_all 5 (gets ∷ puts 4 ∷ gets ∷ gets ∷ []) (Fifo.update three).1).2.buf)
delta-visible_example =
    delta-visible 5 (gets ∷ puts 4 ∷ gets ∷ gets ∷ []) three (tt, (tt, (tt, (tt, tt))))

abbrev idle : SignalState ℕ
idle = record { cur = 3; new = 3; pending = false; always_fire = false; value_changed = 0 }

update-write_all_example :
    (read (write_all 5 (7 ∷ 3 ∷ []) idle) ≡ read idle)
    × (read (Signal.update ◌==◌ (write_all 5 (7 ∷ 3 ∷ []) idle)).1
        ≡ last_or (read idle) (7 ∷ 3 ∷ []))
    × ((Signal.update ◌==◌ (write_all 5 (7 ∷ 3 ∷ []) idle)).1.pending ≡ false)
    × ((Signal.update ◌==◌ (write_all 5 (7 ∷ 3 ∷ []) idle)).0 ≡ (
        if true && (idle.always_fire || not (read idle == last_or (read idle) (7 ∷ 3 ∷ [])))
        then Op.notify 0 ∷ []
        else []))
update-write_all_example = update-write_all ◌==◌ 5 (7 ∷ 3 ∷ []) idle refl
