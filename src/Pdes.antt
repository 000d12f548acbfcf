-- ===== src/Pdes.antt =====
-- crates/systemrs-pdes/src: regions that run in parallel to common boundaries and exchange messages
-- there. A region holds a whole kernel with the model's closures, so what it does between the
-- boundaries is an argument: a record of the three operations of region.rs that the orchestrator
-- calls.
pub mod Exchange
pub mod Boundaries
use systemrs.Base.{
  ℕ, zero, suc, ◌+◌, List, [], ◌∷◌, ◌++◌, Bool, true, false, ◌&&◌, ◌||◌, Option, none, some, ◌⊎◌,
  inl, inr, map, get_elem?, set, if◌then◌else◌, ltb, leb, ◌==◌,
}
use systemrs.Time.{SimTime, add, saturating_mul}
use systemrs.Kernel.Activate.{Run, done, out_of_fuel, ◌>>=◌}

-- `BoundaryMessage`: the payload, which the exchange only moves, is of any type.
pub record BoundaryMessage (A : Type 0) : Type 0 where
  pub deliver_at : SimTime
  pub dst_region : ℕ
  pub dst_link : ℕ
  pub src_seq : ℕ
  pub payload : A

-- `global_quantum_boundary`
unfoldable pub global_quantum_boundary : ℕ → SimTime → SimTime
unfolding saturating_mul add
global_quantum_boundary q_index quantum = saturating_mul quantum (add q_index 1)

-- The round that starts at the boundary before.
abbrev pub min_time : SimTime → SimTime → SimTime
min_time a b = if ltb b a then b else a

pub record OrchestratorBuilder : Type 0 where
  pub quantum : SimTime
  pub next_link : ℕ

pub record BoundaryLink : Type 0 where
  pub dst_region : ℕ
  pub link_id : ℕ
  pub latency : SimTime

pub record PdesError : Type 0 where
  pub latency : SimTime
  pub quantum : SimTime

-- `connect`, without the registration at the region.
unfoldable pub connect :
    OrchestratorBuilder → ℕ → SimTime → PdesError ⊎ (BoundaryLink × OrchestratorBuilder)
connect b dst latency =
    if ltb latency b.quantum
    then inl (record { latency = latency; quantum = b.quantum })
    else inr (
      record { dst_region = dst; link_id = b.next_link; latency = latency },
      record b { next_link = b.next_link + 1 },
    )

module _ {A : Type 0} where
  -- `BoundaryLink::send`, at a time, with the next number of the region's outbox.
  unfoldable pub send : BoundaryLink → SimTime → ℕ → A → BoundaryMessage A
  send link now src_seq value = record {
    deliver_at = add now link.latency;
    dst_region = link.dst_region;
    dst_link = link.link_id;
    src_seq = src_seq;
    payload = value;
  }

  -- The order of `sort_key`, a tuple that is compared from its first component on.
  unfoldable pub key_le : BoundaryMessage A → BoundaryMessage A → Bool
  key_le a b =
      ltb a.deliver_at b.deliver_at
      || (a.deliver_at == b.deliver_at
          && (ltb a.dst_region b.dst_region
              || (a.dst_region == b.dst_region
                  && (ltb a.dst_link b.dst_link
                      || (a.dst_link == b.dst_link && leb a.src_seq b.src_seq)))))

  abbrev pub insert_by_key : BoundaryMessage A → List (BoundaryMessage A) → List (BoundaryMessage A)
  insert_by_key m [] = m ∷ []
  insert_by_key m (x ∷ xs) =
      let rest = insert_by_key m xs in if key_le m x then m ∷ x ∷ xs else x ∷ rest

  -- `routed.sort_unstable_by_key(BoundaryMessage::sort_key)`, where no two keys are equal.
  unfoldable pub sort_by_key : List (BoundaryMessage A) → List (BoundaryMessage A)
  sort_by_key [] = []
  sort_by_key (m ∷ ms) = insert_by_key m (sort_by_key ms)

  -- `self.inboxes[m.dst_region.index()].push(m)`: the region exists, as it was a link's destination.
  abbrev pub push_at :
      List (List (BoundaryMessage A))
      → ℕ
      → BoundaryMessage A
      → Option (List (BoundaryMessage A))
      → List (List (BoundaryMessage A))
  push_at inboxes i m none = inboxes
  push_at inboxes i m (some inbox) = set inboxes i (inbox ++ m ∷ [])

  unfoldable pub route :
      List (BoundaryMessage A) → List (List (BoundaryMessage A)) → List (List (BoundaryMessage A))
  route [] inboxes = inboxes
  route (m ∷ ms) inboxes =
      route ms (push_at inboxes m.dst_region m (get_elem? inboxes m.dst_region))

-- What the orchestrator asks of a region.
pub record RegionOps (R A : Type 0) : Type 0 where
  pub run_to_boundary : SimTime → R → R
  pub drain_outbox : R → List (BoundaryMessage A) × R
  pub commit : List (BoundaryMessage A) → R → R

module _ {R A : Type 0} (ops : RegionOps R A) where
  -- `for r in &self.regions { routed.append(&mut r.drain_outbox()); }`
  unfoldable pub drain_all : List R → List (BoundaryMessage A) × List R
  drain_all [] = ([], [])
  drain_all (r ∷ rs) =
      let (out, r') = ops.drain_outbox r in
      let (rest, rs') = drain_all rs in (out ++ rest, r' ∷ rs')

  -- `self.regions.iter().zip(self.inboxes.iter_mut())`
  unfoldable pub commit_regions : List R → List (List (BoundaryMessage A)) → List R
  commit_regions [] inboxes = []
  commit_regions (r ∷ rs) [] = r ∷ rs
  commit_regions (r ∷ rs) (inbox ∷ inboxes) = ops.commit inbox r ∷ commit_regions rs inboxes

  -- One round: run, exchange, commit.
  unfoldable pub round : SimTime → List R → List R
  unfolding sort_by_key route drain_all commit_regions
  round boundary regions =
      let (routed, drained) = drain_all (map (ops.run_to_boundary boundary) regions) in
      commit_regions drained (route (sort_by_key routed) (map (λ _. []) regions))

  -- `Orchestrator::run`, from a number of rounds on: the regions, and the boundaries run to.
  unfoldable pub run_rounds : ℕ → ℕ → SimTime → SimTime → List R → Run (List SimTime × List R)
  unfolding global_quantum_boundary round
  run_rounds zero q_index quantum end regions = out_of_fuel
  run_rounds (suc fuel) q_index quantum end regions =
      let boundary = min_time (global_quantum_boundary q_index quantum) end in
      let regions' = round boundary regions in
      let rest = run_rounds fuel (add q_index 1) quantum end regions' in
      if leb end boundary
      then done (boundary ∷ [], regions')
      else rest >>= (λ (bs, rs). done (boundary ∷ bs, rs))

  unfoldable pub run : ℕ → SimTime → SimTime → List R → Run (List SimTime × List R)
  unfolding run_rounds
  run fuel quantum end regions = run_rounds fuel 0 quantum end regions
