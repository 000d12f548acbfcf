-- ===== src/Twin/Replay/Recorded.antt =====
-- A replay of crates/systemrs-twin/src/replay.rs against the run that was recorded.
use systemrs.Base.{
  ℕ, ◌≤◌, List, [], ◌∷◌, ◌++◌, some, ltb, if◌then◌else◌, ◌≡◌, refl, arith, ap, ◌∙◌, sym, All,
  All-join, map, u64_max,
}
use mathlib.Core.List.{append_assoc, append-nil}
use systemrs.Time.{SimTime, add, sub}
use systemrs.Kernel.Ctx.{Op}
use systemrs.Twin.Journal.{
  InjectionKind, InjectionRecord, Journal, new, record_poll, serialize, parse,
}
use systemrs.Twin.Journal.Roundtrip.{IsWords, parse-serialize}
use systemrs.Twin.Replay.{Poll, replay, record_run, live}

-- The clock never goes back from poll to poll, and the numbers are 64-bit words.
abbrev pub IsOrdered : SimTime → List Poll → Type 0
IsOrdered t [] = Unit
IsOrdered t (p ∷ polls) =
    (t ≤ p.now)
    × (p.now ≤ u64_max)
    × (p.delta_count ≤ u64_max)
    × All (λ v. v ≤ u64_max) p.inbox
    × IsOrdered p.now polls

abbrev recorded : SimTime → ℕ → ℕ → InjectionRecord
recorded now n value = record { at = now; delta = n; kind = InjectionKind.delta; value = value }

abbrev all_recorded : List Poll → List InjectionRecord
all_recorded [] = []
all_recorded (p ∷ polls) = map (recorded p.now p.delta_count) p.inbox ++ all_recorded polls

-- A poll appends the values of its inbox.
record_poll-Journal :
    (injector : ℕ → List Op) (now : SimTime) (n : ℕ) (inbox : List ℕ) (j : Journal)
    → (let (_, _, j2) = record_poll injector now n inbox j in j2)
      ≡ record j { records = j.records ++ map (recorded now n) inbox }
unfolding record_poll
record_poll-Journal injector now n [] j =
    ap (λ t. record j { records = t }) (sym (append-nil j.records))
record_poll-Journal injector now n (v ∷ inbox) j =
    record_poll-Journal injector now n inbox
      (record j { records = j.records ++ recorded now n v ∷ [] })
    ∙ ap (λ t. record j { records = t })
        (append_assoc j.records (recorded now n v ∷ []) (map (recorded now n) inbox))

record_run-records :
    (injector : ℕ → List Op) (polls : List Poll) (j : Journal)
    → record_run injector polls j ≡ record j { records = j.records ++ all_recorded polls }
unfolding record_run
record_run-records injector [] j = ap (λ t. record j { records = t }) (sym (append-nil j.records))
record_run-records injector (p ∷ polls) j =
    rw (record_poll-Journal injector p.now p.delta_count p.inbox j) (
      record_run-records injector polls _
      ∙ ap (λ t. record j { records = t })
          (append_assoc j.records (map (recorded p.now p.delta_count) p.inbox)
            (all_recorded polls)))

-- The clock at an injection is the time of the record.
clock-at :
    (t at : SimTime) → t ≤ at → at ≤ u64_max → (if ltb t at then add t (sub at t) else t) ≡ at
unfolding add sub
clock-at t at h g = ground (arith, h, g)

-- Values of one time that is now.
replay-now :
    (injector : ℕ → List Op) (now : SimTime) (n : ℕ) (inbox : List ℕ) (rest : List InjectionRecord)
    → now ≤ u64_max
    → replay injector now (map (recorded now n) inbox ++ rest)
      ≡ map (λ v. (now, injector v)) inbox ++ replay injector now rest
unfolding replay
replay-now injector now n [] rest h = refl
replay-now injector now n (v ∷ inbox) rest h =
    rw (clock-at now now (omega arith) h)
      (ap (λ t. (now, injector v) ∷ t) (replay-now injector now n inbox rest h))

earlier : (t u : SimTime) (polls : List Poll) → t ≤ u → IsOrdered u polls → IsOrdered t polls
earlier t u [] h o = tt
earlier t u (p ∷ polls) h (q, a, b, c, o) = (omega arith, a, b, c, o)

-- The records of one poll, and then others that replay as `l` from any time up to the poll's.
replay-poll :
    (injector : ℕ → List Op) (t now : SimTime) (n : ℕ) (inbox : List ℕ)
    (rest : List InjectionRecord) (l : List (SimTime × List Op))
    → t ≤ now
    → now ≤ u64_max
    → ((u : SimTime) → u ≤ now → replay injector u rest ≡ l)
    → replay injector t (map (recorded now n) inbox ++ rest)
      ≡ map (λ v. (now, injector v)) inbox ++ l
unfolding replay
replay-poll injector t now n [] rest l h top e = e t h
replay-poll injector t now n (v ∷ inbox) rest l h top e = rw (clock-at t now h top) (
    ap (λ r. (now, injector v) ∷ r)
      (replay-now injector now n inbox rest top
        ∙ ap (λ r. map (λ w. (now, injector w)) inbox ++ r) (e now (omega arith))))

replay-all_recorded :
    (injector : ℕ → List Op) (t : SimTime) (polls : List Poll)
    → IsOrdered t polls
    → replay injector t (all_recorded polls) ≡ live injector polls
unfolding replay live
replay-all_recorded injector t [] o = refl
replay-all_recorded injector t (p ∷ polls) (h, top, d, values, o) =
    replay-poll injector t p.now p.delta_count p.inbox (all_recorded polls) (live injector polls) h
      top (λ u g. replay-all_recorded injector u polls (earlier u p.now polls g o))

recorded-IsWords :
    (now : SimTime) (n : ℕ) (inbox : List ℕ)
    → now ≤ u64_max
    → n ≤ u64_max
    → All (λ v. v ≤ u64_max) inbox
    → All IsWords (map (recorded now n) inbox)
recorded-IsWords now n [] h g a = tt
recorded-IsWords now n (v ∷ inbox) h g (p, a) = ((h, g, p), recorded-IsWords now n inbox h g a)

all_recorded-IsWords :
    (t : SimTime) (polls : List Poll) → IsOrdered t polls → All IsWords (all_recorded polls)
all_recorded-IsWords t [] o = tt
all_recorded-IsWords t (p ∷ polls) (h, top, d, values, o) =
    All-join IsWords (map (recorded p.now p.delta_count) p.inbox) (all_recorded polls)
      (recorded-IsWords p.now p.delta_count p.inbox top d values)
      (all_recorded-IsWords p.now polls o)

-- A run whose polls are in order of time, on 64-bit words, is recorded; the journal is written out and
-- read back: it has the seed of the run, and its replay makes the calls of the live run at the times
-- at which the live run made them.
pub replay-record_run :
    (injector : ℕ → List Op) (seed : ℕ) (polls : List Poll)
    → seed ≤ u64_max
    → IsOrdered 0 polls
    → (j : Journal) × (parse (serialize (record_run injector polls (new seed))) ≡ some j)
      × (j.seed ≡ seed)
      × (replay injector 0 j.records ≡ live injector polls)
replay-record_run injector seed polls h o =
    let j : Journal = record { seed = seed; records = all_recorded polls } in
    (
      j,
      ap (λ t. parse (serialize t)) (record_run-records injector polls (new seed))
          ∙ parse-serialize j h (all_recorded-IsWords 0 polls o),
      refl,
      replay-all_recorded injector 0 polls o,
    )
