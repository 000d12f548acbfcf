-- ===== src/Tests/Journals.antt =====
-- The inputs of crates/systemrs-twin/src and their journal at concrete values.
use systemrs.Base.{ℕ, List, [], ◌∷◌, ◌++◌, some, ◌≡◌, refl, arith}
use systemrs.Kernel.Ctx.{Op}
use systemrs.Twin.Journal.{Journal, InjectionKind, new, serialize, parse}
use systemrs.Twin.Journal.Roundtrip.{parse-serialize}
use systemrs.Twin.Replay.{Poll, record_run, replay, live}
use systemrs.Twin.Replay.Recorded.{replay-record_run}
use systemrs.Twin.Input.{World, Steps, send_step, gate_step}
use systemrs.Twin.Input.Interleavings.{idle, Steps-values}

abbrev notifies : ℕ → List Op
notifies v = Op.notify v ∷ []

abbrev two_polls : List Poll
two_polls =
    record { now = 5; delta_count = 2; inbox = 42 ∷ 7 ∷ [] }
    ∷ record { now = 12; delta_count = 0; inbox = 1 ∷ [] }
    ∷ []

replay-record_run_example :
    (j : Journal) × (parse (serialize (record_run notifies two_polls (new 9))) ≡ some j)
    × (j.seed ≡ 9)
    × (replay notifies 0 j.records ≡ live notifies two_polls)
replay-record_run_example = replay-record_run notifies 9 two_polls (omega arith) (omega arith)

-- A gate that has parked, and a value that wakes it.
abbrev served : World ℕ
served = gate_step (gate_step (gate_step (send_step (gate_step (idle (3 ∷ []))) 7)))

Steps-values_example :
    served.injected ++ served.shared.inbox
    ≡ ((idle (3 ∷ [])).injected ++ (idle (3 ∷ [])).shared.inbox) ++ 7 ∷ []
Steps-values_example =
    Steps-values (idle (3 ∷ [])) served (7 ∷ [])
      (Steps.gates _
        (Steps.sends _ 7 (Steps.gates _ (Steps.gates _ (Steps.gates _ (Steps.done _))))))
      refl

-- The journal of the test of journal.rs.
abbrev two_records : Journal
two_records = record {
  seed = 0xabcd;
  records =
      record { at = 5000; delta = 2; kind = InjectionKind.delta; value = 42 }
      ∷ record { at = 12000; delta = 0; kind = InjectionKind.timed; value = 7 }
      ∷ [];
}

parse-serialize_example : parse (serialize two_records) ≡ some two_records
parse-serialize_example = parse-serialize two_records (omega arith) (omega arith)
