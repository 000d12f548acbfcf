-- ===== src/Kernel/Snapshot/Settled.antt =====
-- A snapshot of a settled kernel, applied to a rebuilt model: crates/systemrs-kernel/src/snapshot.rs.
use systemrs.Base.{
  ℕ, List, [], ◌∷◌, arith, true, false, Option, none, some, ◌≡◌, refl, ap, fun_ext, ==_refl,
}
use systemrs.Base.Arena.{Dense}
use systemrs.Kernel.Event.{Event}
use systemrs.Kernel.Process.{Process}
use systemrs.Kernel.State.{Inner}
use systemrs.Kernel.Wheel.{no_entry, runnable_empty}
use systemrs.Kernel.Snapshot.{
  event_snap, proc_snap, put_event, put_proc, put_all, capture, snapshot, apply, apply_events,
  apply_procs, is_quiescent, park, collect, is_none, no_wake,
}
use systemrs.Kernel.Snapshot.RoundTrip.{collected, length-collect, MatchesAt}

-- A process that was built in the same way: the snapshot does not hold its kind, its body (of which
-- the model keeps whether the slot is filled), its static sensitivity and its pending request.
abbrev pub SameProcess : Option Process → Option Process → Type 0
SameProcess none o = o ≡ none
SameProcess (some p) o =
    (q : Process) × (o ≡ some q)
    × (q.kind ≡ p.kind)
    × (q.body ≡ p.body)
    × (q.static_sens ≡ p.static_sens)
    × (q.pending_wait ≡ p.pending_wait)

abbrev pub SameEvent : Option Event → Option Event → Type 0
SameEvent none o = o ≡ none
SameEvent (some e) o =
    (f : Event) × (o ≡ some f)
    × (f.static_methods ≡ e.static_methods)
    × (f.static_threads ≡ e.static_threads)

-- The model of the second kernel was built as that of the first one.
pub record Rebuilt (s r : Inner) : Type 0 where
  pub procs : (k : ℕ) → SameProcess (s.procs.get k) (r.procs.get k)
  pub events : (k : ℕ) → SameEvent (s.events.get k) (r.events.get k)
  pub procs_size : r.procs.size ≡ s.procs.size
  pub events_size : r.events.size ≡ s.events.size
  pub chans : r.chans ≡ s.chans
  pub resolution : r.resolution ≡ s.resolution
  pub starvation : r.starvation ≡ s.starvation
  pub gate_installed : r.gate_installed ≡ s.gate_installed
  pub elaborated : r.elaborated ≡ s.elaborated
  pub ended : r.ended ≡ s.ended

-- A kernel that has started and waits at a quiescent boundary.
pub record Settled (s : Inner) : Type 0 where
  pub quiescent : is_quiescent s ≡ true
  pub started : s.started ≡ true
  pub initial : s.initial_procs ≡ []
  pub no_update : (c : ℕ) → s.update_pending c ≡ false
  pub not_queued : (k : ℕ) (p : Process) → s.procs.get k ≡ some p → p.queued ≡ false
  pub dense_procs : Dense s.procs
  pub dense_events : Dense s.events

pub no_entry-nil : (xs : List ℕ) → no_entry xs ≡ true → xs ≡ []
no_entry-nil [] h = refl
no_entry-nil (x ∷ xs) h = absurd (cc (h))

pub no_wake-nil : (xs : List (ℕ × ℕ)) → no_wake xs ≡ true → xs ≡ []
no_wake-nil [] h = refl
no_wake-nil (x ∷ xs) h = absurd (cc (h))

pub is_none-none : (o : Option ℕ) → is_none o ≡ true → o ≡ none
is_none-none none h = refl
is_none-none (some x) h = absurd (cc (h))

-- The fields that `park` sets have their values already.
parked : (s : Inner) → Settled s → park s ≡ s
unfolding is_quiescent runnable_empty
parked s d =
    let q = d.quiescent in
    let none_updating : s.update_pending ≡ (λ _. false) = fun_ext d.no_update in
    rw
      (
        is_none-none s.running (ground (arith, q)),
        no_entry-nil s.method_pop (ground (arith, q)),
        no_entry-nil s.method_push (ground (arith, q)),
        no_entry-nil s.thread_pop (ground (arith, q)),
        no_entry-nil s.thread_push (ground (arith, q)),
        no_entry-nil s.update_queue (ground (arith, q)),
        no_entry-nil s.delta_events (ground (arith, q)),
        no_wake-nil s.delta_wakes (ground (arith, q)),
        none_updating,
        d.started,
        d.initial,
      )
      refl

event-MatchesAt :
    (k : ℕ) (o o' : Option Event)
    → SameEvent o o'
    → MatchesAt (λ es. es.id) put_event event_snap (λ k e. refl) k o o'
event-MatchesAt k none o' h = h
event-MatchesAt k (some e) o' (f, there, m, t) = (f, there, rw (m, t) refl)

process-MatchesAt :
    (k : ℕ) (o o' : Option Process)
    → ((p : Process) → o ≡ some p → p.queued ≡ false)
    → SameProcess o o'
    → MatchesAt (λ ps. ps.id) put_proc proc_snap (λ k p. refl) k o o'
process-MatchesAt k none o' idle h = h
process-MatchesAt k (some p) o' idle (q, there, a, b, c, e) =
    (q, there, rw (a, b, c, e, idle p refl) refl)

-- A snapshot of a settled kernel, applied to a rebuilt model, gives the kernel back: the snapshot is
-- taken, the application succeeds, and every part of the state is the one before, the counters, the
-- timed heap, the pending notifications, the subscriber lists in their order and the wait states, so
-- that any continuation is the same. Settled: the kernel has started, is quiescent, has no process
-- marked as queued and no initial process left. Rebuilt: the model has the same processes and events,
-- up to what a snapshot holds of them, and the same settings.
pub apply-snapshot :
    (s r : Inner)
    → Settled s
    → Rebuilt s r
    → (snapshot s ≡ some (capture s)) × (apply (capture s) r ≡ (true, s))
unfolding snapshot apply capture apply_events apply_procs
apply-snapshot s r d b =
    let events : put_all (λ es. es.id) put_event (collect event_snap s.events.get s.events.size)
          r.events
        ≡ (true, s.events) =
      collected (λ es. es.id) put_event event_snap (λ k e. refl) s.events r.events d.dense_events
        b.events_size (λ k. event-MatchesAt k (s.events.get k) (r.events.get k) (b.events k)) in
    let procs : put_all (λ ps. ps.id) put_proc (collect proc_snap s.procs.get s.procs.size) r.procs
        ≡ (true, s.procs) =
      collected (λ ps. ps.id) put_proc proc_snap (λ k p. refl) s.procs r.procs d.dense_procs
        b.procs_size
        (λ k. process-MatchesAt k (s.procs.get k) (r.procs.get k) (d.not_queued k) (b.procs k)) in
    (
      rw (d.quiescent) refl,
      rw
          (
            length-collect (λ ps. ps.id) put_proc proc_snap (λ k p. refl) s.procs.size s.procs.get
                d.dense_procs.0,
            length-collect (λ es. es.id) put_event event_snap (λ k e. refl) s.events.size
                s.events.get d.dense_events.0,
            events,
            procs,
            b.procs_size,
            b.events_size,
            ==_refl s.procs.size,
            ==_refl s.events.size,
            b.chans,
            b.resolution,
            b.starvation,
            b.gate_installed,
            b.elaborated,
            b.ended,
          )
          (ap (λ x. (true, x)) (parked s d)),
    )
