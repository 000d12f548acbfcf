-- ===== src/Channels/Binding.antt =====
-- crates/systemrs-channels/src/binding.rs under the ports and the exports: bind requests are
-- recorded, and then resolved. The name of an endpoint and its place among the objects are not modelled.
pub mod Completion
pub mod Ends
use systemrs.Base.{
  ℕ, zero, suc, List, [], ◌∷◌, ◌++◌, Bool, true, false, Option, none, some, if◌then◌else◌, ◌==◌,
  leb, ◌&&◌, length,
}
use systemrs.Kernel.State.{Phase}

pub data BindElem : Type 0 where
  channel parent : ℕ → BindElem

pub data PortPolicy : Type 0 where
  one_or_more zero_or_more : PortPolicy
  all_bound : ℕ → PortPolicy

-- `PortPolicy::check`: whether it is `Ok`.
unfoldable pub check : PortPolicy → ℕ → Bool
check PortPolicy.one_or_more n = leb 1 n
check (PortPolicy.all_bound max) n = leb max n && leb 1 n
check PortPolicy.zero_or_more n = true

pub data BindState : Type 0 where
  unbound : BindState
  recorded : List BindElem → BindState
  bound : List ℕ → BindState

pub data ObjectKind : Type 0 where
  module_object port export prim_channel process event socket : ObjectKind

pub record PortMeta : Type 0 where
  pub kind : ObjectKind
  pub bind : BindState
  pub policy : PortPolicy

pub record PortRegistry : Type 0 where
  pub metas : ℕ → Option PortMeta

abbrev pub insert : PortRegistry → ℕ → PortMeta → PortRegistry
insert reg id m = record { metas = λ j. if j == id then some m else reg.metas j }

abbrev pub new : PortRegistry
new = record { metas = λ _. none }

-- `ensure_build`: whether it is `Ok`.
abbrev pub ensure_build : Phase → Bool
ensure_build Phase.build = true
ensure_build _ = false

-- `register_endpoint`, with the new object's id.
abbrev pub register_endpoint : PortRegistry → ℕ → ObjectKind → PortPolicy → PortRegistry
register_endpoint reg id kind policy =
    insert reg id (record { kind = kind; bind = BindState.unbound; policy = policy })

-- `record`: the state after an element more, and `none` for an error.
abbrev pub record_elem : BindState → BindElem → Option BindState
record_elem BindState.unbound elem = some (BindState.recorded (elem ∷ []))
record_elem (BindState.recorded v) elem = some (BindState.recorded (v ++ elem ∷ []))
record_elem (BindState.bound _) elem = none

unfoldable pub record_bind : PortRegistry → ℕ → BindElem → Option PortRegistry
record_bind reg id elem = elim (reg.metas id) [
  | none ↦ none
  | some m ↦ elim (record_elem m.bind elem) [
    | none ↦ none
    | some bind ↦ some (insert reg id (record m { bind = bind }))
  ]
]

-- What a completion returns: the resolved ids, or an error of the policy; the registry is changed in both.
pub data Completed : Type 0 where
  resolves : List ℕ → PortRegistry → Completed
  violates : PortRegistry → Completed
  out_of_fuel : Completed

abbrev pub extend : List ℕ → Completed → Completed
extend ids (resolves rest reg) = resolves (ids ++ rest) reg
extend ids (violates reg) = violates reg
extend ids out_of_fuel = out_of_fuel

-- The loop over the elements, in which a parent is completed by `complete`.
unfoldable pub resolve_elems :
    (PortRegistry → ℕ → Completed) → List BindElem → PortRegistry → Completed
resolve_elems complete [] reg = resolves [] reg
resolve_elems complete (BindElem.channel oid ∷ elems) reg =
    extend (oid ∷ []) (resolve_elems complete elems reg)
resolve_elems complete (BindElem.parent pid ∷ elems) reg = elim (complete reg pid) [
  | resolves ids reg2 ↦ extend ids (resolve_elems complete elems reg2)
  | violates reg2 ↦ violates reg2
  | out_of_fuel ↦ out_of_fuel
]

-- The state of an endpoint that has one.
abbrev pub set_bind_of : PortRegistry → ℕ → BindState → Option PortMeta → PortRegistry
set_bind_of reg id bind none = reg
set_bind_of reg id bind (some m) = insert reg id (record m { bind = bind })

abbrev pub set_bind : PortRegistry → ℕ → BindState → PortRegistry
set_bind reg id bind = set_bind_of reg id bind (reg.metas id)

-- The check of the policy and the end of `complete`.
unfoldable pub finish : ℕ → PortPolicy → Completed → Completed
finish id policy (resolves ids reg) =
    if check policy (length ids)
    then resolves ids (set_bind reg id (BindState.bound ids))
    else violates reg
finish id policy (violates reg) = violates reg
finish id policy out_of_fuel = out_of_fuel

-- `complete`: a placeholder without ids stands for an endpoint while its elements are resolved.
abbrev pub start :
    (PortRegistry → ℕ → Completed) → PortRegistry → ℕ → PortMeta → List BindElem → Completed
start complete reg id m elems =
    finish id m.policy
      (resolve_elems complete elems (insert reg id (record m { bind = BindState.bound [] })))

abbrev pub complete_state :
    (PortRegistry → ℕ → Completed) → PortRegistry → ℕ → PortMeta → BindState → Completed
complete_state complete reg id m (BindState.bound ids) = resolves ids reg
complete_state complete reg id m (BindState.recorded elems) = start complete reg id m elems
complete_state complete reg id m BindState.unbound = start complete reg id m []

abbrev pub complete_meta :
    (PortRegistry → ℕ → Completed) → PortRegistry → ℕ → Option PortMeta → Completed
complete_meta complete reg id none = resolves [] reg
complete_meta complete reg id (some m) = complete_state complete reg id m m.bind

unfoldable pub complete : ℕ → PortRegistry → ℕ → Completed
complete zero reg id = out_of_fuel
complete (suc f) reg id = complete_meta (complete f) reg id (reg.metas id)

-- `resolved`
abbrev pub ids_of : BindState → Option (List ℕ)
ids_of (BindState.bound ids) = some ids
ids_of _ = none

abbrev pub ids_of_meta : Option PortMeta → Option (List ℕ)
ids_of_meta none = none
ids_of_meta (some m) = ids_of m.bind

abbrev pub bound_ids : PortRegistry → ℕ → Option (List ℕ)
bound_ids reg id = ids_of_meta (reg.metas id)

abbrev pub or_empty : Option (List ℕ) → List ℕ
or_empty none = []
or_empty (some ids) = ids

unfoldable pub resolved : PortRegistry → ℕ → List ℕ
resolved reg id = or_empty (bound_ids reg id)
