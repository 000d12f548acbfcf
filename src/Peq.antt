-- ===== src/Peq.antt =====
-- crates/systemrs-tlm-utils/src/peq_get.rs: the payload event queue with `get_next`. The map keyed by
-- time and insertion number is the list of its entries in the order of the keys. The kernel's present
-- time is an argument, and an operation answers with its calls of the kernel.
pub mod Due
use systemrs.Base.{
  ℕ, List, [], ◌∷◌, Bool, ◌&&◌, ◌||◌, Option, none, some, if◌then◌else◌, ltb, leb, ◌==◌, incr_u64,
}
use systemrs.Time.{SimTime, add, sub, zero_time}
use systemrs.Kernel.Ctx.{Op}

pub record PeqEntry {ℓ} (A : Type ℓ) : Type ℓ where
  pub when : SimTime
  pub seq : ℕ
  pub item : A

pub record PeqWithGet {ℓ} (A : Type ℓ) : Type ℓ where
  pub queue : List (PeqEntry A)
  pub seq : ℕ
  pub event : ℕ

module _ {ℓ} {A : Type ℓ} where
  unfoldable pub new : ℕ → PeqWithGet A
  new event = record { queue = []; seq = 0; event = event }

  -- The order of the keys `(SimTime, u64)`.
  unfoldable pub key_before : PeqEntry A → PeqEntry A → Bool
  key_before a b = ltb a.when b.when || (a.when == b.when && ltb a.seq b.seq)

  -- `BTreeMap::insert`, of a key that is not in the map.
  unfoldable pub insert : PeqEntry A → List (PeqEntry A) → List (PeqEntry A)
  insert e [] = e ∷ []
  insert e (x ∷ xs) = let rest = insert e xs in if key_before e x then e ∷ x ∷ xs else x ∷ rest

  unfoldable pub notify : SimTime → A → SimTime → PeqWithGet A → List Op × PeqWithGet A
  unfolding insert
  notify now item after peq = (
    Op.notify_after peq.event after ∷ [],
    record peq {
      queue = insert (record { when = add now after; seq = peq.seq; item = item }) peq.queue;
      seq = incr_u64 peq.seq;
    },
  )

  unfoldable pub notify_now : SimTime → A → PeqWithGet A → List Op × PeqWithGet A
  unfolding notify
  notify_now now item peq = notify now item zero_time peq

  -- `if let Some(&next_key) = self.queue.keys().next()`
  abbrev pub rearm : SimTime → ℕ → List (PeqEntry A) → List Op
  rearm now event [] = []
  rearm now event (next ∷ rest) =
      if leb next.when now
      then Op.notify event ∷ []
      else Op.notify_after event (sub next.when now) ∷ []

  unfoldable pub get_next : SimTime → PeqWithGet A → Option A × List Op × PeqWithGet A
  get_next now peq = elim peq.queue [
    | [] ↦ (none, [], peq)
    | first ∷ rest ↦
        if ltb now first.when
        then (none, Op.notify_after peq.event (sub first.when now) ∷ [], peq)
        else (some first.item, rearm now peq.event rest, record peq { queue = rest })
  ]
