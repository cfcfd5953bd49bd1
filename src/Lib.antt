-- ===== src/Lib.antt =====
-- The multi-queue packet schedulers of MQ-ECN for ns-2, and two of its Linux queueing disciplines, as
-- functions on their states.
--
-- A switch port has up to 64 FIFO queues in a shared buffer of `qlim_ * mean_pktsize_` bytes.
-- `enque` puts a packet into the queue that its priority names and may mark it for congestion;
-- `deque` chooses the queue to serve. The schedulers differ in that choice and in the estimates that
-- their marking thresholds use:
--   * Priority: NS2/scheduling/priority/priority.h, priority.cc;
--   * Wrr: NS2/diffserv/wrr/wrr.h, wrr.cc;
--   * Dwrr, with its linked list of active queues in ActiveList: NS2/diffserv/dwrr/dwrr.h, dwrr.cc;
--   * Wfq: NS2/diffserv/wfq/wfq.h, wfq.cc;
--   * PrioDwrr: NS2/scheduling/prio_dwrr/prio_dwrr.h, prio_dwrr.cc, up to 8 strict higher priority
--     queues (PrioQueues) over a group of DWRR queues. Its copy of dwrr.cc's code is that of Dwrr, on
--     the fields that both classes have;
--   * PrioWfq: NS2/scheduling/prio_wfq/prio_wfq.h, prio_wfq.cc, the same over a group of WFQ queues,
--     with the code of Wfq;
--   * SchDwrr: kernel modules/sch_dwrr/params.h, main.c, the Linux queueing discipline: DWRR within up
--     to 8 strict priorities, a token bucket, MQ-ECN, TCN and CoDel;
--   * SchWfq: kernel modules/sch_wfq/params.h, main.c, the same with weighted fair queueing by virtual
--     finish times. Its copy of sch_dwrr's code is that of SchDwrr, on the parameters that both have.
-- A C++ object is a record with the names of its fields, less the trailing underscore; the array
-- `queues` is a list of `Slot`s; `enque`, `deque`, `timeout`, `command`, `MarkingECN` and
-- `TotalByteLength` are functions from a state, under these names in snake case. A function of the
-- source that is long stands in parts: `enque` calls `offer` (the buffer test) and `admit`; the loop
-- of `deque` is `loop`, one iteration of it `turn`. `Scheduler::instance().clock()` is the argument
-- `now`. `Port` has what all schedulers repeat.
--
-- Calls that can fail return a `Result`: `exited` is `exit(1)`, `undefined` a null dereference, an
-- index out of range or a division by zero, `stuck` a loop that has used its fuel. The loop of
-- `Wrr.Deque` takes one visit of each queue and one more, that of `Dwrr.Deque` the sum over the queues
-- of what the deficit counter lacks for the head packet, and the walk of `ActiveList` one visit of
-- each node.
--
-- `Simulator` is what the code uses of ns-2, of C and of Tcl: an interface of floating-point
-- operations without laws, of `PacketQueue` with the laws of a FIFO, and of `atoi`, `atof`, the
-- lookup of a channel. `Queue::command`, which `command` calls on the arguments that it does not
-- know, is an argument of `command`; `Port.Arguments` tells the two kinds apart. A theorem that needs
-- a law of floating-point numbers has it as a hypothesis. `Port.Backlog` says what a port promises
-- whatever its scheduler: each queue is the sequence of packets that it holds. `Port.Run` is the
-- interface of a scheduler for sequences of calls, which Dwrr, Priority and PrioDwrr fill.
--
-- An `int` is a number without a bound: the code's `int`s are signed and their overflow is undefined
-- in C++. A packet that is queued is the one that its queue holds, so the marks that `enque` writes
-- through its pointer are written to that packet. `debug_` is false.
--
-- Of SchDwrr and SchWfq, `Kernel` is what the code uses of Linux: packets, and the FIFO of a class
-- with its laws.
-- Its integers have their widths and wrap (`Words`): `u32` and `u64` by their modulus, `s64` as the bit
-- pattern of two's complement, as the kernel is compiled. The linked list of active classes is a list
-- of indices, since the code takes its head, appends and moves only. `now`, `later` and `t` are what
-- the clock shows at each reading of a call. The loop of `dwrr_dequeue` takes more fuel than the sum
-- over the classes of what their deficits lack for their oldest packets. A pointer to a packet that an
-- enqueue writes a mark to after the FIFO took it is the packet in the FIFO.
--
-- Not modelled: of sch_dwrr and sch_wfq their set-up (init, change, destroy, params.c) and statistics;
-- the other kernel modules, the traces of queue lengths, the registration with Tcl, the copies of
-- ns-2's TCP and classifier, and the scripts.
--
-- `Common` has the shared notation and lemmas, `Examples` a concrete simulator, states and tests.
pub mod Common
pub mod Simulator
pub mod Port
pub mod Priority
pub mod Wrr
pub mod ActiveList
pub mod Dwrr
pub mod Wfq
pub mod PrioQueues
pub mod PrioDwrr
pub mod PrioWfq
pub mod Words
pub mod Kernel
pub mod SchDwrr
pub mod SchWfq
pub mod Examples
