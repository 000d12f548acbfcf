-- ===== src/Peq/Due.antt =====
-- The order and the time in which the queue of crates/systemrs-tlm-utils/src/peq_get.rs gives out its
-- items.
use systemrs.Base.{
  ℕ, ◌+◌, ◌≤◌, ◌<◌, List, [], ◌∷◌, true, false, Option, none, some, ◌≡◌, refl, ap, inl, inr, arith,
  All, All-map, Bool-cases, List-cases, if◌then◌else◌, ◌==◌, ==_refl, ltb, leb, u64_max, incr_u64,
}
use systemrs.Time.{SimTime, sub}
use systemrs.Kernel.Ctx.{Op}
use systemrs.Peq.{PeqEntry, PeqWithGet, key_before, insert, notify, get_next, rearm}

-- When the calls notify an event; the calls of other events do not count.
abbrev pub wake_time : ℕ → SimTime → List Op → Option SimTime
wake_time event now [] = none
wake_time event now (Op.notify ev ∷ ops) =
    let later = wake_time event now ops in if ev == event then some now else later
wake_time event now (Op.notify_after ev after ∷ ops) =
    let later = wake_time event now ops in if ev == event then some (now + after) else later
wake_time event now (_ ∷ ops) = wake_time event now ops

module _ {ℓ} {A : Type ℓ} where
  abbrev pub Sorted : List (PeqEntry A) → Type 0
  Sorted [] = Unit {0}
  Sorted (x ∷ xs) = All (λ y. key_before x y ≡ true) xs × Sorted xs

  key_before_trans :
      (a b c : PeqEntry A) → key_before a b ≡ true → key_before b c ≡ true → key_before a c ≡ true
  unfolding key_before
  key_before_trans a b c h k = ground (arith, h, k)

  -- The newer of two entries does not come first unless it is due before the other.
  key_before-older :
      (e x : PeqEntry A) → x.seq < e.seq → key_before e x ≡ false → key_before x e ≡ true
  unfolding key_before
  key_before-older e x newer h = ground (arith, h, newer)

  All-insert :
      (P : PeqEntry A → Type 0) (e : PeqEntry A) (xs : List (PeqEntry A))
      → P e
      → All P xs
      → All P (insert e xs)
  unfolding insert
  All-insert P e [] p h = (p, tt)
  All-insert P e (x ∷ xs) p (q, h) = elim (Bool-cases (key_before e x)) [
    | inl first ↦ rw (first) (p, (q, h))
    | inr later ↦ rw (later) (q, All-insert P e xs p h)
  ]

  insert-Sorted :
      (e : PeqEntry A) (xs : List (PeqEntry A))
      → All (λ x. x.seq < e.seq) xs
      → Sorted xs
      → Sorted (insert e xs)
  unfolding insert
  insert-Sorted e [] older s = (tt, tt)
  insert-Sorted e (x ∷ xs) (old, older) (before, s) = elim (Bool-cases (key_before e x)) [
    | inl first ↦
        rw (first) ((first, All-map (λ y b. key_before_trans e x y first b) xs before), (before, s))
    | inr later ↦ rw (later) (
      All-insert (λ y. key_before x y ≡ true) e xs (key_before-older e x old later) before,
      insert-Sorted e xs older s,
    )
  ]

  -- The entries are in the order of their times and, at equal times, of their insertion.
  pub record WellFormed (peq : PeqWithGet A) : Type 0 where
    pub sorted : Sorted peq.queue
    pub numbered : All (λ x. x.seq < peq.seq) peq.queue

  pub notify-WellFormed :
      (now after : SimTime) (item : A) (peq : PeqWithGet A)
      → peq.seq < u64_max
      → WellFormed peq
      → WellFormed (notify now item after peq).1
  unfolding notify
  notify-WellFormed now after item peq room w =
      let next : incr_u64 peq.seq ≡ peq.seq + 1 = ground arith in
      record {
        sorted = insert-Sorted _ peq.queue w.numbered w.sorted;
        numbered = rw (next) (
            All-insert (λ x. x.seq < peq.seq + 1) _ peq.queue (omega arith)
              (All-map (λ x lt. omega (arith, lt)) peq.queue w.numbered));
      }

  -- When the first entry of a queue is to be given out, if it is not before the present time.
  abbrev pub first_due : SimTime → List (PeqEntry A) → Option SimTime
  first_due now [] = none
  first_due now (x ∷ xs) = some (if leb x.when now then now else x.when)

  -- An attempt that finds nothing due leaves the queue; one that finds an item takes the first entry.
  abbrev pub Taken : SimTime → PeqWithGet A → Option A → PeqWithGet A → Type ℓ
  Taken now peq none peq' = (peq' ≡ peq) × All (λ x. now < x.when) peq.queue
  Taken now peq (some item) peq' =
      (e : PeqEntry A) × (peq.queue ≡ e ∷ peq'.queue)
      × (e.item ≡ item)
      × (e.when ≤ now)
      × All (λ x. key_before e x ≡ true) peq'.queue

  key_before-le : (a b : PeqEntry A) → key_before a b ≡ true → a.when ≤ b.when
  unfolding key_before
  key_before-le a b h = ground (arith, h)

  wake_time-rearm :
      (now : SimTime) (event : ℕ) (xs : List (PeqEntry A))
      → wake_time event now (rearm now event xs) ≡ first_due now xs
  unfolding sub
  wake_time-rearm now event [] = refl
  wake_time-rearm now event (x ∷ xs) = elim (Bool-cases (leb x.when now)) [
    | inl due ↦ rw (due, ==_refl event) refl
    | inr later ↦ rw (later, ==_refl event) (ap some (ground (arith, later)))
  ]

  -- An item is given out if and only if one is due, the one of the smallest time and, at that time, the
  -- one that was put in first; nothing is given out before its time. As long as the queue holds
  -- entries, the event of the queue, at which the puller waits, is notified for the time when the first of them
  -- is due, or for the next delta if it is due already; without entries it is not notified; and the
  -- queue stays in order.
  pub get_next-Taken :
      (now : SimTime) (peq : PeqWithGet A)
      → WellFormed peq
      → Taken now peq (get_next now peq).0 (get_next now peq).2
        × (wake_time peq.event now (get_next now peq).1 ≡ first_due now (get_next now peq).2.queue)
        × WellFormed (get_next now peq).2
  unfolding get_next sub
  get_next-Taken now peq w = elim (List-cases peq.queue) [
    | inl empty ↦ rw (empty) ((refl, tt), refl, record { sorted = tt; numbered = tt })
    | inr (first, rest, filled) ↦
        let sorted = rw (filled) at w.sorted in
        let numbered = rw (filled) at w.numbered in
        elim (Bool-cases (ltb now first.when)) [
          | inl early ↦
              rw (filled, early)
                (
                  (
                    refl,
                    (
                      ground (arith, early),
                      All-map (λ x b. ground (arith, key_before-le first x b, early)) rest sorted.0,
                    ),
                  ),
                  rw (==_refl peq.event) (ap some (ground (arith, early))),
                  record { sorted = sorted; numbered = numbered },
                )
          | inr due ↦
              rw (filled, due)
                (
                  (first, refl, refl, ground (arith, due), sorted.0),
                  wake_time-rearm now peq.event rest,
                  record { sorted = sorted.1; numbered = numbered.1 },
                )
        ]
  ]
