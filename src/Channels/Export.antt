-- ===== src/Channels/Export.antt =====
-- crates/systemrs-channels/src/export.rs, as Port.antt has the ports.
use systemrs.Base.{ℕ, Option, none, if◌then◌else◌}
use systemrs.Kernel.State.{Phase}
use systemrs.Channels.Binding.{
  BindElem, PortPolicy, ObjectKind, PortRegistry, Completed, ensure_build, register_endpoint,
  record_bind, complete,
}

abbrev pub with_policy : PortRegistry → ℕ → PortPolicy → PortRegistry
with_policy reg id policy = register_endpoint reg id ObjectKind.export policy

abbrev pub new : PortRegistry → ℕ → PortRegistry
new reg id = with_policy reg id PortPolicy.one_or_more

unfoldable pub bind_channel : Phase → PortRegistry → ℕ → ℕ → Option PortRegistry
bind_channel phase reg id channel =
    if ensure_build phase then record_bind reg id (BindElem.channel channel) else none

unfoldable pub bind_export : Phase → PortRegistry → ℕ → ℕ → Option PortRegistry
bind_export phase reg id inner =
    if ensure_build phase then record_bind reg id (BindElem.parent inner) else none

-- With the fuel of the recursion.
unfoldable pub complete_binding : ℕ → PortRegistry → ℕ → Completed
complete_binding fuel reg id = complete fuel reg id
