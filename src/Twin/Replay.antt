-- ===== src/Twin/Replay.antt =====
-- crates/systemrs-twin/src/replay.rs: the thread that injects the values of a journal, and the run of
-- the recorder of journal.rs that it repeats.
pub mod Recorded
use systemrs.Base.{ℕ, List, [], ◌∷◌, ◌++◌, ltb, if◌then◌else◌, map}
use systemrs.Time.{SimTime, add, sub}
use systemrs.Kernel.Ctx.{Op}
use systemrs.Twin.Journal.{InjectionRecord, Journal, record_poll}

-- `JournalReplayer::install`: the times at which the thread injects, and the calls that it makes then.
-- A wait ends after the time that it names.
unfoldable pub replay : (ℕ → List Op) → SimTime → List InjectionRecord → List (SimTime × List Op)
replay injector now [] = []
replay injector now (rec ∷ records) =
    let clock = if ltb now rec.at then add now (sub rec.at now) else now in
    (clock, injector rec.value) ∷ replay injector clock records

-- A poll of the live run: the time, the delta count and the values that have arrived.
pub record Poll : Type 0 where
  pub now : SimTime
  pub delta_count : ℕ
  pub inbox : List ℕ

unfoldable pub record_run : (ℕ → List Op) → List Poll → Journal → Journal
record_run injector [] j = j
record_run injector (p ∷ polls) j =
    let (_, _, j2) = record_poll injector p.now p.delta_count p.inbox j in
    record_run injector polls j2

-- What the live run injects, and when.
unfoldable pub live : (ℕ → List Op) → List Poll → List (SimTime × List Op)
live injector [] = []
live injector (p ∷ polls) = map (λ v. (p.now, injector v)) p.inbox ++ live injector polls
