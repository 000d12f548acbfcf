-- ===== src/Tests/Bindings.antt =====
-- The bindings of crates/systemrs-channels/src at a small registry.
use systemrs.Base.{zero, suc, [], ◌∷◌, none, some, refl, arith, if◌then◌else◌, ◌==◌}
use systemrs.Channels.Binding.{
  BindElem, PortPolicy, BindState, ObjectKind, PortMeta, PortRegistry, complete,
}
use systemrs.Channels.Binding.Completion.{Ensures, Again}
use systemrs.Channels.Binding.Ends.{Resolves, Covers, complete-Settles}

abbrev parent_port : PortMeta
parent_port = record {
  kind = ObjectKind.port;
  bind = BindState.recorded (BindElem.channel 7 ∷ BindElem.parent 1 ∷ []);
  policy = PortPolicy.one_or_more;
}

abbrev child_port : PortMeta
child_port = record {
  kind = ObjectKind.port;
  bind = BindState.recorded (BindElem.parent 0 ∷ []);
  policy = PortPolicy.zero_or_more;
}

-- A cycle of two ports, one of which has a channel as well.
abbrev cycle : PortRegistry
cycle = record {
  metas = λ j. if j == 0 then some parent_port else if j == 1 then some child_port else none;
}

cycle-Covers : Covers (0 ∷ 1 ∷ []) cycle
cycle-Covers zero e = refl
cycle-Covers (suc zero) e = refl
cycle-Covers (suc (suc j)) e = ground (arith, e)

complete-Settles_example :
    Ensures ⊥ (Resolves cycle) (complete 3 cycle 1)
    × Again 0 PortPolicy.zero_or_more 1 (complete 3 cycle 1)
complete-Settles_example =
    complete-Settles (0 ∷ 1 ∷ []) 3 0 cycle 1 child_port cycle-Covers (omega arith) refl refl
