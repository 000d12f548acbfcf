-- ===== src/Tests/Transactions.antt =====
-- The theorems on times, quanta and transactions at concrete inputs.
use systemrs.Base.{ℕ, true, ◌↔◌, ◌+◌, ◌≡◌, refl, [], ◌∷◌, false, arith, some}
use systemrs.Quantum.{new, reset}
use systemrs.Quantum.Grid.{work_all, Decoupled, total, gq_of, work_all-Decoupled}
use systemrs.Interconnect.{Region, Interconnect, connect, decode, sort_by_base}
use systemrs.Interconnect
use systemrs.Interconnect.Table.{Mapped, Contains}
use systemrs.Interconnect.Decode.{connect-decode, routed, b_transport-routed}
use systemrs.Peq.{PeqWithGet, key_before, get_next}
use systemrs.Peq.Due.{Taken, wake_time, first_due, get_next-Taken}
use systemrs.Peq.Due
use systemrs.Tlm.Payload.{GenericPayload, Command, ResponseStatus, ByteEnable}
use systemrs.Tlm.Memory.{respond, Memory, b_transport}
use systemrs.Tlm.Memory.Access.{Transferred, b_transport-Transferred}

work_all-Decoupled_example :
    Decoupled 100 (work_all (gq_of 100) (30 ∷ 80 ∷ 95 ∷ []) (7, reset 7 (some (gq_of 100)) new))
    × ((work_all (gq_of 100) (30 ∷ 80 ∷ 95 ∷ []) (7, reset 7 (some (gq_of 100)) new)).0
          + (work_all
              (gq_of 100)
              (30 ∷ 80 ∷ 95 ∷ [])
              (7, reset 7 (some (gq_of 100)) new)).1.local_time
        ≡ 7 + total (30 ∷ 80 ∷ 95 ∷ []))
work_all-Decoupled_example =
    work_all-Decoupled 100 7 new (30 ∷ 80 ∷ 95 ∷ []) (omega arith) (omega arith)

abbrev small_memory : Memory
small_memory = record { storage = 1 ∷ 2 ∷ 3 ∷ 4 ∷ []; latency = 5 }

-- A write of two bytes, the second of which is not enabled.
abbrev masked : GenericPayload
masked = record {
  command = Command.write;
  address = 1;
  bytes = 8 ∷ 9 ∷ [];
  streaming_width = 0;
  byte_enable = ByteEnable.mask (255 ∷ 0 ∷ []);
  response_status = ResponseStatus.incomplete;
  dmi_allowed = false;
}

abbrev plain : GenericPayload
plain = record masked { byte_enable = ByteEnable.all }

b_transport-Transferred_example :
    Transferred small_memory masked 1 (b_transport small_memory masked)
b_transport-Transferred_example = b_transport-Transferred small_memory masked 1

abbrev low : Region
low = record { base = 0; size = 16; relative = true; sock = 0 }

abbrev high : Region
high = record { base = 64; size = 32; relative = true; sock = 1 }

-- Two regions, mapped from the higher one down.
abbrev two_regions : Interconnect
two_regions = record { regions = high ∷ low ∷ []; connected = false }

two_regions-connect :
    connect two_regions ≡ some (low ∷ high ∷ [], record two_regions { connected = true })
unfolding connect sort_by_base
two_regions-connect = refl

connect-decode_example :
    (decode (low ∷ high ∷ []) 70 ≡ some high) ↔ (Mapped high (high ∷ low ∷ []) × Contains high 70)
connect-decode_example =
    connect-decode two_regions (record two_regions { connected = true }) (low ∷ high ∷ []) 70 high
      two_regions-connect

-- Each target counts its calls.
abbrev counting : ℕ → GenericPayload × ℕ → GenericPayload × ℕ
counting sock (txn, n) = (txn, n + 1)

b_transport-routed_example :
    ((r : Region)
      → Mapped r (high ∷ low ∷ []) × Contains r 1
      → Interconnect.b_transport counting (low ∷ high ∷ []) (plain, 0)
        ≡ routed counting r (plain, 0))
    × (((r : Region) → Mapped r (high ∷ low ∷ []) × Contains r 1 → ⊥)
        → Interconnect.b_transport counting (low ∷ high ∷ []) (plain, 0)
          ≡ (respond ResponseStatus.address_error plain, 0))
    × ((Interconnect.b_transport counting (low ∷ high ∷ []) (plain, 0)).0.address ≡ 1)
b_transport-routed_example =
    b_transport-routed counting two_regions (record two_regions { connected = true })
      (low ∷ high ∷ []) plain 0 two_regions-connect

-- Two items for the same time.
abbrev two_items : PeqWithGet ℕ
two_items = record {
  queue = record { when = 30; seq = 0; item = 5 } ∷ record { when = 30; seq = 1; item = 6 } ∷ [];
  seq = 2;
  event = 4;
}

two_items-WellFormed : Due.WellFormed two_items
unfolding key_before
two_items-WellFormed = record {
  sorted = ((refl, tt), (tt, tt));
  numbered = (omega arith, (omega arith, tt));
}

get_next-Taken_example :
    Taken 30 two_items (get_next 30 two_items).0 (get_next 30 two_items).2
    × (wake_time two_items.event 30 (get_next 30 two_items).1
        ≡ first_due 30 (get_next 30 two_items).2.queue)
    × Due.WellFormed (get_next 30 two_items).2
get_next-Taken_example = get_next-Taken 30 two_items two_items-WellFormed
