-- ===== src/Nucleus.antt =====
-- The nucleus between the operations of its parts: where its processes are, and how it goes from one
-- state to the next by the semaphores and the creations of source/syscall.c and the scheduler of
-- source/scheduler.c.
pub mod Pool
pub mod Start
pub mod Stops
pub mod Woken
pub mod Births
pub mod Turns
pub mod Reach
use jae_os.Prelude.{◌≤◌, ◌≡◌, ◌≢◌, ℕ, List, Ptr, null, All, NotIn}
use jae_os.Prelude.Int.{ℤ}
use jae_os.Const.{max_proc}
use jae_os.Arch.{Arch}
use jae_os.Pcb.{Procs}
use jae_os.Pcb.Alloc.{Free}
use jae_os.Pcb.Queue.{Apart}
use jae_os.Pcb.Tree.{IsChildren}
use jae_os.Asl.View.{Entry}
use jae_os.Asl.Woken.{Outside}
use jae_os.Asl.Insert.{NotWaiting}
use jae_os.Kernel.{Kernel, Exit, next, leave}
use jae_os.Scheduler.{scheduler}
use jae_os.Syscall.Semaphore.{passeren, verhogen}
use jae_os.Syscall.Semaphore.Wakes.{Queues}

-- Each process that is not free has a list of children, and none of these is free.
abbrev pub Families : Procs → List Ptr → Type 0
Families m free =
    (p : Ptr)
    → p ≢ null
    → p ≤ max_proc
    → NotIn p free
    → (cs : List Ptr) × IsChildren m p cs × Apart free cs

-- The free descriptors `free` are those of no process that is current, or ready, or waits, or is a
-- child of another.
pub record Spare (k : Kernel) (es : List Entry) (xs free : List Ptr) : Type 0 where
  pub ring : Free k.tables.procs free
  pub not_waiting : Outside free es
  pub not_ready : Apart free xs
  pub not_current : NotIn k.current_process free
  pub valid : All (λ x. x ≤ max_proc) free
  pub families : Families k.tables.procs free

-- The semaphore list and the ready queue `xs` satisfy their invariants, and a process is current, or
-- ready, or waits for one semaphore, but never two of these.
pub record InPlace (k : Kernel) (es : List Entry) (fs xs free : List Ptr) : Type 0 where
  pub queues : Queues k es fs xs
  pub not_ready : NotIn k.current_process xs
  pub not_waiting : NotWaiting k.current_process es
  pub current_valid : k.current_process ≤ max_proc
  pub ready_valid : All (λ x. x ≤ max_proc) xs
  pub spare : Spare k es xs free

abbrev pub Sound : Kernel → Type 0
Sound k =
    (es : List Entry) × (fs : List Ptr) × (xs : List Ptr) × (free : List Ptr) × InPlace k es fs xs
      free
