-- ===== src/Lib.antt =====
-- JaeOS, a small operating system nucleus for the uARM emulator.
--
-- The program has two levels. The lower one keeps tables: circular lists (include/clist.h), process
-- descriptors with their queues and the tree of processes (source/pcb.c), and the active semaphore
-- list (source/asl.c). The upper one is the nucleus: it starts the first process (source/initial.c),
-- chooses the next one (source/scheduler.c), serves system calls (source/exceptions.c dispatches,
-- source/syscall.c has the services), passes traps up to processes that handle them
-- (source/exceptions.c), and turns interrupts of devices and of the timer into V operations on the
-- devices' semaphores (source/interrupts.c).
--
-- Which file models which part; a function keeps its name, in lower case with underscores.
--   Prelude          pointers, memory, runs, lists, integers of the machine
--   Const            include/const.h and the processor's state
--   Clist            the macros of include/clist.h; `clist_foreach` takes the loop's test
--   Pcb              source/pcb.c: allocPcb is alloc_pcb, insertProcQ insert_proc_q, and so on
--   Asl              source/asl.c: the loops of findSemd and insertBlocked have their tests as
--                    `stops` and `goes_before`; the branches of insertBlocked share `join_queue`;
--                    the end of removeBlocked and outBlocked is `release_semd`
--   Arch             what the code takes from the emulator's headers and the linker, a parameter
--   Kernel           the nucleus's variables, the machine, and the monad of the handlers
--   Scheduler        source/scheduler.c; loadnext is preempt, arm_timer and dispatch in turn
--   Syscall          source/syscall.c, a child module for each group of services
--   Exceptions       source/exceptions.c
--   Interrupts       source/interrupts.c
--   Initial          source/initial.c
--   Nucleus          the parts composed: the turns that the nucleus takes, and what they keep
--   Tests            the properties at concrete inputs
-- The modules below Clist, Pcb, Asl, Scheduler, Syscall.Pid, Syscall.Process, Syscall.Semaphore,
-- Exceptions, Interrupts, Initial and Nucleus hold proofs, and Kernel.Runs what they need about
-- calls that go on or leave the nucleus.
-- Clist.Ring says which list of elements the links stand for; Asl.View is the invariant of the
-- semaphore list, and Asl.Spec the map of queues that it implements.
--
-- Memory. A pointer is a number and NULL is 0. A field of a structure is a map from the addresses of
-- the structures; `container_of` is the identity. A read or a write through NULL ends a run with a
-- fault. A function that is given the address of a list's header takes the header's value and
-- returns the new one. A theorem says that a run returns, which excludes faults and lack of fuel.
--
-- Fuel. A loop over a list of descriptors has 21 rounds, as a list holds at most 20 of them and
-- the test is made once more at the end. The theorems on lists take any fuel above the length, and
-- those on queues and semaphores ask for lists of at most 20, which the tables' sizes give. The
-- search of lookfor_progeny has 42 rounds, a call and a step along the siblings for each process.
-- pid_generator has 10 rounds: a power of ten is above a 32-bit counter after 9, unless it wraps.
-- timer_handler takes a bound on the processes that wait for the clock.
--
-- Machine. Words have 32 bits and wrap. LDST, HALT, PANIC and WAIT do not come back: the run
-- leaves the nucleus there. STST stores the processor's state; setEntryHi answers what it is given. The
-- registers of a device keep their value during a handler, but for commands. A reading of the clock
-- takes the next value of a sequence. An assignment of a call's result through current_process reads
-- the pointer before the call, as gcc does. The address of a local variable, from which allocPcb
-- takes an id, is the parameter `alloc_tmp`, the same in every call. process_count and
-- soft_block_count are integers without bound: at most 20 processes exist, so an int holds them.
--
-- Not modelled: the emulator's own code and headers; processes, which run between the handlers; user
-- pointers into the nucleus's own structures, since the memory's words are apart from the
-- descriptors; the test programs source/p0test.c, source/p1test.c and source/p2test.c.
mod Prelude
pub mod Const
pub mod Clist
pub mod Pcb
pub mod Asl
pub mod Arch
pub mod Kernel
pub mod Scheduler
pub mod Syscall
pub mod Exceptions
pub mod Interrupts
pub mod Initial
pub mod Nucleus
pub mod Tests
