-- ===== src/Kernel/Wait/ZeroTimeout.antt =====
-- A wait for an event with a timeout of zero, by `install_wait` of
-- crates/systemrs-kernel/src/inner.rs and `run_until` of sim.rs.
use mathlib.Core.Option.{some-injective}
use systemrs.Base.{
  ℕ, ◌≡◌, ◌≤◌, refl, sym, subst, ◌∙◌, List, [], ◌∷◌, Bool, Option, none, some, true, false, arith,
  incr_u64, All, ap, if◌then◌else◌, u64_max,
}
use systemrs.Time.{SimTime, add}
use systemrs.Kernel.Process.{Process, WaitReq}
use systemrs.Kernel.State.{Inner, TimedEntry, TimedTarget, IsEvent, set_proc}
use systemrs.Kernel.Notify.{heap_push, pops_before}
use systemrs.Kernel.Wait.{install_wait, install_req, known}
use systemrs.Kernel.Wheel.{is_live, next_timed_when}
use systemrs.Kernel.Invariant.{Inv, Holds}
use systemrs.Kernel.Invariant.Calls.{install_wait-Inv}
use systemrs.Kernel.Invariant.Wheel.{Earliest, next_timed_when-Earliest, next_timed_when-first}

pushed :
    (P : TimedEntry → Type 0) (e : TimedEntry) (heap : List TimedEntry)
    → All P (heap_push e heap)
    → P e
unfolding heap_push
pushed P e [] (p, h) = p
pushed P e (x ∷ heap) h = go (pops_before e x) h (pushed P e heap)
  where
    go :
        (b : Bool)
        → All P (if b then e ∷ x ∷ heap else x ∷ heap_push e heap)
        → (All P (heap_push e heap) → P e)
        → P e
    go true (p, h) later = p
    go false (q, h) later = later h

-- The next time of a state whose heap got a live entry at the present.
next-now :
    {lo : SimTime} (t : Inner) (e : TimedEntry) (heap : List TimedEntry)
    → Inv lo t
    → t.timed ≡ heap_push e heap
    → e.when ≡ t.now
    → is_live t e ≡ true
    → (next_timed_when t).0 ≡ some t.now
next-now t e heap v shape now live =
    go (next_timed_when t).0 (next_timed_when-Earliest t v)
      (λ w h. (next_timed_when-first t w v h).0)
  where
    go :
        (o : Option SimTime)
        → Earliest t t.timed o
        → ((w : SimTime) → o ≡ some w → t.now ≤ w)
        → o ≡ some t.now
    go none dead first =
        let d =
          pushed (λ x. is_live t x ≡ false) e heap
            (subst (All (λ x. is_live t x ≡ false)) shape dead) in
        absurd (cc (live, d))
    go (some w) (_, all) first =
        let b =
          pushed (λ x. is_live t x ≡ true → w ≤ x.when) e heap
            (subst (All (λ x. is_live t x ≡ true → w ≤ x.when)) shape all) in
        ap some (omega (arith, b live, first w refl))

-- The state after the wait is installed.
waiting : Inner → ℕ → ℕ → Process → Inner
waiting s pid ev p =
    install_req (WaitReq.event_timeout ev 0) pid p.kind (incr_u64 p.wait_gen)
      (set_proc s pid (λ q. record q { wait_gen = incr_u64 q.wait_gen }))

add_zero : (n : SimTime) → n ≤ u64_max → add n 0 ≡ n
unfolding add
add_zero n h = ground arith

waiting-live :
    (s : Inner) (pid ev : ℕ) (p : Process)
    → s.procs.get pid ≡ some p
    → p.dead ≡ false
    → (when : SimTime) (seq : ℕ)
    → is_live
        (waiting s pid ev p)
        (record { when = when; seq = seq; target = TimedTarget.wake pid (incr_u64 p.wait_gen) })
      ≡ true
unfolding is_live waiting install_req
waiting-live s pid ev p found alive when seq = ground arith

-- A process that waits for an event with a timeout of zero leaves a live entry on the heap at the
-- present time: the next time of the run loop is the present, where the assertion of `do_timestep`
-- that the clock grows fails. It holds for every process that is not dead, every event and every
-- state that satisfies the invariant of the kernel.
pub zero_timeout-now :
    {lo : SimTime} (s t : Inner) (pid ev : ℕ) (p : Process)
    → Inv lo s
    → s.procs.get pid ≡ some p
    → p.dead ≡ false
    → IsEvent s ev
    → install_wait s pid (WaitReq.event_timeout ev 0) ≡ some t
    → (t.now ≡ s.now) × ((next_timed_when t).0 ≡ some t.now)
zero_timeout-now {lo} s t pid ev p v found alive (x, known) done =
    let installed : install_wait s pid (WaitReq.event_timeout ev 0) ≡ some (waiting s pid ev p) =
      unfold install_wait waiting in ground arith in
    let e = some-injective _ _ (sym installed ∙ done) in
    let good =
      subst (Holds (Inv lo)) installed (install_wait-Inv pid (WaitReq.event_timeout ev 0) v) in
    let entry : TimedEntry = record {
      when = add s.now 0;
      seq = s.seq;
      target = TimedTarget.wake pid (incr_u64 p.wait_gen);
    } in
    subst (λ r. (r.now ≡ s.now) × ((next_timed_when r).0 ≡ some r.now)) e
      (
        unfold waiting install_req in refl,
        next-now (waiting s pid ev p) entry s.timed good (unfold waiting install_req in refl)
            (unfold waiting install_req in add_zero s.now v.fits)
            (waiting-live s pid ev p found alive (add s.now 0) s.seq),
      )
