-- ===== src/Interconnect.antt =====
-- crates/systemrs-tlm-utils/src/interconnect.rs: the bus router that decodes addresses. A fatal report
-- aborts, which is `none`. A region keeps the number of the socket that it forwards to; what the
-- targets do is an argument, since any target may be bound there.
pub mod Table
pub mod Decode
use systemrs.Base.{
  ℕ, zero, suc, ◌+◌, ◌-◌, List, [], ◌∷◌, ◌++◌, Bool, true, false, not, ◌&&◌, Option, none, some,
  get_elem?, if◌then◌else◌, ltb, leb, ◌==◌, u64_max,
}
use systemrs.Tlm.Payload.{GenericPayload, ResponseStatus}
use systemrs.Tlm.Memory.{respond}

pub record Region : Type 0 where
  pub base : ℕ
  pub size : ℕ
  pub relative : Bool
  pub sock : ℕ

pub record Interconnect : Type 0 where
  pub regions : List Region
  pub connected : Bool

unfoldable pub new : Interconnect
new = record { regions = []; connected = false }

unfoldable pub map_region : Region → Interconnect → Option Interconnect
map_region r ic = if ic.connected then none else some (record ic { regions = ic.regions ++ r ∷ [] })

-- `slice::partition_point`, on a slice that the predicate partitions.
abbrev pub partition_point : ℕ → List Region → ℕ
partition_point addr [] = zero
partition_point addr (r ∷ rest) =
    let n = partition_point addr rest in if leb r.base addr then suc n else zero

-- `(addr - r.base < r.size).then_some(r)`
abbrev pub hit : ℕ → Option Region → Option Region
hit addr none = none
hit addr (some r) = if ltb (addr - r.base) r.size then some r else none

unfoldable pub decode : List Region → ℕ → Option Region
decode regions addr =
    let i = partition_point addr regions in
    if i == 0 then none else hit addr (get_elem? regions (i - 1))

-- `regions.sort_by_key(|r| r.base)`, a stable sort.
abbrev pub insert_by_base : Region → List Region → List Region
insert_by_base r [] = r ∷ []
insert_by_base r (x ∷ xs) =
    let rest = insert_by_base r xs in if leb r.base x.base then r ∷ x ∷ xs else x ∷ rest

unfoldable pub sort_by_base : List Region → List Region
sort_by_base [] = []
sort_by_base (r ∷ rest) = insert_by_base r (sort_by_base rest)

-- A region that is not empty and does not wrap.
abbrev pub region_fits : Region → Bool
region_fits r = not (r.size == 0) && leb (r.base + r.size) u64_max

abbrev pub all_fit : List Region → Bool
all_fit [] = true
all_fit (r ∷ rest) = region_fits r && all_fit rest

-- `for pair in regions.windows(2)`
abbrev pub no_overlap : List Region → Bool
no_overlap [] = true
no_overlap (a ∷ []) = true
no_overlap (a ∷ b ∷ rest) = leb (a.base + a.size) b.base && no_overlap (b ∷ rest)

-- `connect`: the table that the closure decodes with.
unfoldable pub connect : Interconnect → Option (List Region × Interconnect)
unfolding sort_by_base
connect ic =
    let regions = sort_by_base ic.regions in
    if ic.connected
    then none
    else if all_fit regions
    then if no_overlap regions then some (regions, record ic { connected = true }) else none
    else none

module _ {S : Type 0} (forward : ℕ → GenericPayload × S → GenericPayload × S) where
  -- The closure that `connect` registers: `forward` is `b_transport` of the sockets.
  unfoldable pub b_transport : List Region → GenericPayload × S → GenericPayload × S
  unfolding decode
  b_transport regions (txn, s) = elim (decode regions txn.address) [
    | none ↦ (respond ResponseStatus.address_error txn, s)
    | some r ↦
        let address = if r.relative then txn.address - r.base else txn.address in
        let (txn', s') = forward r.sock (record txn { address = address }, s) in
        (record txn' { address = txn.address }, s')
  ]
