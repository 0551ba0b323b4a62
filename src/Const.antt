-- ===== src/Const.antt =====
-- include/const.h, and the processor state of include/types.h (`state_t` of uARM).
use jae_os.Prelude.{ℕ}

abbrev pub max_proc : ℕ
max_proc = 20

-- Rounds that a loop over a list of process or semaphore descriptors may take: a list holds at most
-- `max_proc` of them, and the loop's test is made once more at its end.
abbrev pub rounds : ℕ
rounds = 21

-- The scheduler's modes, the values of `flag`.
abbrev pub start : ℕ
start = 0

abbrev pub reset : ℕ
reset = 1

abbrev pub load_next : ℕ
load_next = 2

abbrev pub load_current : ℕ
load_current = 3

-- Kinds of exceptions that a process can handle itself, the indices of `tags`.
abbrev pub sys : ℕ
sys = 0

abbrev pub tlb : ℕ
tlb = 1

abbrev pub pgmtp : ℕ
pgmtp = 2

abbrev pub sched_time_slice : ℕ
sched_time_slice = 5000

abbrev pub sched_pseudo_clock : ℕ
sched_pseudo_clock = 100000

abbrev pub sched_bogus_slice : ℕ
sched_bogus_slice = 500000

-- The positions in `oldnew_areas`.
abbrev pub excp_sys_old : ℕ
excp_sys_old = 0

abbrev pub excp_tlb_old : ℕ
excp_tlb_old = 1

abbrev pub excp_pgmt_old : ℕ
excp_pgmt_old = 2

abbrev pub excp_sys_new : ℕ
excp_sys_new = 3

abbrev pub excp_tlb_new : ℕ
excp_tlb_new = 4

abbrev pub excp_pgmt_new : ℕ
excp_pgmt_new = 5

-- `state_t`: the saved registers of the processor.
pub record State : Type 0 where
  pub a1 : ℕ
  pub a2 : ℕ
  pub a3 : ℕ
  pub a4 : ℕ
  pub v1 : ℕ
  pub v2 : ℕ
  pub v3 : ℕ
  pub v4 : ℕ
  pub v5 : ℕ
  pub v6 : ℕ
  pub sl : ℕ
  pub fp : ℕ
  pub ip : ℕ
  pub sp : ℕ
  pub lr : ℕ
  pub pc : ℕ
  pub cpsr : ℕ
  pub cp15_control : ℕ
  pub cp15_entry_hi : ℕ
  pub cp15_cause : ℕ
  pub tod_hi : ℕ
  pub tod_low : ℕ
