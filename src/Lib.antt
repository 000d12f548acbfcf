-- ===== src/Lib.antt =====
-- A model of systemrs, a discrete-event simulation library in the style of SystemC.
--
-- The program keeps simulated processes, events and channels in arenas and runs them on one
-- thread: it evaluates the runnable processes, commits the channel updates, delivers the delta
-- notifications, and, when nothing is runnable, moves the clock to the next timed entry.
--
-- Time.antt: crates/systemrs-time/src/sim_time.rs and resolution.rs.
-- Kernel/Event.antt, Process.antt, State.antt: the arenas and the counters, which are
--   crates/systemrs-kernel/src/event.rs, process.rs, timed.rs and the record `Inner` of inner.rs.
-- Kernel/Notify.antt: the notification calls of inner.rs. Kernel/Trigger.antt: the run queues and
--   the order of the four subscriber lists. Kernel/Wait.antt: the installation of a wait.
--   Kernel/Wheel.antt: the timed heap with its dead entries.
-- Kernel/Ctx.antt: the calls of a process body, of crates/systemrs-kernel/src/ctx.rs, and the
--   ways to add processes, of sim.rs.
-- Kernel/Activate.antt, Delta.antt, Sched.antt: crates/systemrs-kernel/src/sim.rs, from one
--   activation of a process to the run loop.
-- Kernel/Snapshot.antt: crates/systemrs-kernel/src/snapshot.rs.
-- Channels/Fifo.antt, Signal.antt, Clock.antt: crates/systemrs-channels/src. A channel answers with
--   the calls that it makes of the kernel, which are the `Op` of Kernel/Ctx.antt.
-- Tlm/Payload.antt, Memory.antt: crates/systemrs-tlm2/src/gp.rs and memory.rs.
-- Quantum.antt: crates/systemrs-tlm-utils/src/quantum.rs and global_quantum.rs.
-- Interconnect.antt: crates/systemrs-tlm-utils/src/interconnect.rs, over the payload of Tlm.
-- Pdes.antt: crates/systemrs-pdes/src, whose orchestrator runs one kernel for each region; what a
--   region does is an argument there.
-- Peq.antt: crates/systemrs-tlm-utils/src/peq_get.rs.
-- BusMaster.antt: crates/systemrs-tlm-utils/src/bus_master.rs. Irq.antt: crates/systemrs-tlm-utils/src/irq.rs.
-- Hart.antt: the RV32I hart of crates/systemrs-examples/src/rv32i.rs. Hart/Alu.antt has its arithmetic,
--   Hart/Decode.antt the fields of an instruction word, Hart/Exec.antt the instructions, the traps and
--   the step, Hart/Asm.antt the encoders, Hart/Handlers.antt the trap handlers, Hart/Socket.antt the
--   bus on a bus master, Hart/Run.antt the runs of a hart and Hart/Soc.antt the
--   rounds of the hart that takes interrupts.
-- Channels/Binding.antt, Port.antt, Export.antt: the two-phase binding of crates/systemrs-channels/src. A
--   completion recurses with a fuel, of which one more than the number of pending endpoints is enough.
-- Twin/Journal.antt, Replay.antt, Input.antt, Rng.antt: crates/systemrs-twin/src. A text is the list of its
--   code points; Twin/Text.antt has what the journal uses of the standard library. The threads that
--   send to a gate are steps among its own, in any order.
-- Diag.antt: crates/systemrs-diag/src. What is printed is a list of reports.
-- Base.antt: integers, words and bits, which the language of the source provides, and the lemmas
--   on lists and numbers that the parts share.
-- The children of these modules hold what the operations respect.
--
-- Representation. An arena is a partial function from indices and a size. Identifiers and times
-- are natural numbers, times are at most 2 ^ 64 - 1 and saturate there; the 64-bit counters wrap.
-- A panic of the source is the value `none` or `panicked`. The timed heap is a list ordered by
-- time and sequence number, which is the order in which the source pops it; a list that the
-- source walks by index is a recursion on the list. A callback of the model's author is a
-- function of an abstract environment and of the state, which answers with the list of calls
-- that it makes (`Program`). The loops over callbacks take a fuel, since the source gives no bound
-- for a model that keeps notifying itself; the result then tells a run that ended from one that
-- panicked and from one that needs more fuel.
--
-- The transport behind a bus master and the bus of a hart are arguments; Hart/Socket/OverMemory.antt puts the
-- memory of Tlm there. A run of a hart counts its instructions by a fuel, of which the bundled
-- summing program takes 3 * n + 5.
--
-- The rounds of a parallel run are counted by a fuel as well: one more than the end of the run is
-- enough, as each round takes the clock one unit further at least.
--
-- Not modelled: the crates core, macros, runtime, tlm1 and trace, the other examples, the pacer of
-- twin, the typed interfaces of ports, the sockets and the protocol of tlm2, and the other parts of tlm-utils. Of the
-- kernel: names and wake reasons of processes, the service store, the read-only hooks on
-- stages and on time, the end-of-simulation hooks, the destructors of a killed thread, and the
-- debug assertions of the source, which a release build does not have.
pub mod Base
pub mod Time
pub mod Kernel
pub mod BusMaster
pub mod Channels
pub mod Diag
pub mod Hart
pub mod Interconnect
pub mod Irq
pub mod Pdes
pub mod Peq
pub mod Quantum
pub mod Tlm
pub mod Twin
pub mod Tests
