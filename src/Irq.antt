-- ===== src/Irq.antt =====
-- crates/systemrs-tlm-utils/src/irq.rs: the interrupt lines and the service that holds their levels. An
-- operation answers with its calls of the kernel; a line that is not in the table panics, which is `none`.
pub mod Levels
use systemrs.Base.{
  ℕ, suc, ◌+◌, ◌-◌, List, [], ◌∷◌, ◌++◌, Bool, true, false, not, Option, none, some, if◌then◌else◌,
  length, get_elem?, set,
}
use systemrs.Kernel.Ctx.{Op}

pub record IrqController : Type 0 where
  pub levels : List Bool
  pub wake : ℕ

-- The part of a simulation that the lines use: the service, if it is there, and the events handed out.
pub record IrqSim : Type 0 where
  pub service : Option IrqController
  pub events : ℕ

pub record IrqLine : Type 0 where
  pub index : ℕ
  pub changed : ℕ

abbrev registered : IrqSim → Option IrqController → IrqController × IrqSim
registered sim (some existing) = (existing, sim)
registered sim none =
    let controller : IrqController = record { levels = []; wake = sim.events } in
    (controller, record { service = some controller; events = sim.events + 1 })

-- `IrqController::get`
unfoldable pub get : IrqSim → IrqController × IrqSim
get sim = registered sim sim.service

unfoldable pub irq_wake_event : IrqSim → ℕ × IrqSim
unfolding get
irq_wake_event sim = let (controller, sim') = get sim in (controller.wake, sim')

unfoldable pub new : IrqSim → IrqLine × IrqSim
unfolding get
new sim =
    let (controller, sim') = get sim in
    let levels = controller.levels ++ false ∷ [] in
    (
      record { index = length levels - 1; changed = sim'.events },
      record { service = some (record controller { levels = levels }); events = sim'.events + 1 },
    )

abbrev pub same_level : Bool → Bool → Bool
same_level true level = level
same_level false level = not level

unfoldable pub set_level : IrqLine → Bool → IrqController → Option (List Op × IrqController)
set_level line level controller = elim (get_elem? controller.levels line.index) [
  | none ↦ none
  | some old ↦ some (
      if same_level old level then ([], controller) else (
        Op.notify line.changed ∷ Op.notify controller.wake ∷ [],
        record controller { levels = set controller.levels line.index level },
      ))
]

unfoldable pub raise : IrqLine → IrqController → Option (List Op × IrqController)
unfolding set_level
raise line controller = set_level line true controller

unfoldable pub lower : IrqLine → IrqController → Option (List Op × IrqController)
unfolding set_level
lower line controller = set_level line false controller

unfoldable pub ack : IrqLine → IrqController → Option (List Op × IrqController)
unfolding set_level
ack line controller = set_level line false controller

unfoldable pub pending : IrqLine → IrqController → Option Bool
pending line controller = get_elem? controller.levels line.index
