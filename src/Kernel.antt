-- ===== src/Kernel.antt =====
-- The nucleus's state (the variables of source/initial.c and source/scheduler.c, the tables, the
-- machine) and the monad in which its handlers run. A handler's call ends where control leaves the
-- nucleus, by LDST, HALT, PANIC or WAIT: those library functions do not come back.
pub mod Runs
use jae_os.Prelude.{
  ℕ, suc, ◌==◌, if◌then◌else◌, Ptr, null, Run, ok, null_dereference, out_of_fuel, update,
}
use jae_os.Prelude.Int.{ℤ, pos, ◌+ℤ◌, ◌-ℤ◌, int_of, word_of}
use jae_os.Const.{State}
use jae_os.Pcb.{Procs}
use jae_os.Asl.{Tables}

-- The machine. `clock n` is what the n-th reading of the time of day answers. The registers of a
-- device are found by its address.
pub record Machine : Type 0 where
  pub memory : ℕ → ℕ
  pub status : ℕ
  pub timer : ℕ
  pub cause : ℕ
  pub entry_hi : ℕ
  pub processor : State
  pub clock : ℕ → ℕ
  pub reads : ℕ
  pub int_oldarea : State
  pub tlb_oldarea : State
  pub pgmtrap_oldarea : State
  pub sysbk_oldarea : State
  pub int_newarea : State
  pub tlb_newarea : State
  pub pgmtrap_newarea : State
  pub sysbk_newarea : State
  pub dtp_status : ℕ → ℕ
  pub dtp_command : ℕ → ℕ
  pub recv_status : ℕ → ℕ
  pub recv_command : ℕ → ℕ
  pub transm_status : ℕ → ℕ
  pub transm_command : ℕ → ℕ

pub record Kernel : Type 0 where
  pub tables : Tables
  pub process_count : ℤ
  pub soft_block_count : ℤ
  pub readyqueue : Ptr
  pub current_process : Ptr
  pub flag : ℕ
  pub pseudoclockflag : ℕ
  pub kernel_start : ℕ
  pub counter : ℕ
  pub start_tod : ℕ
  pub pseudo_start : ℕ
  pub machine : Machine

-- How control leaves the nucleus.
pub data Exit : Type 0 where
  ldst : State → Exit
  halt : Exit
  panic : Exit
  wait : Exit

pub data Step (A : Type 0) : Type 0 where
  next : A → Kernel → Step A
  leave : Exit → Kernel → Step A
  null_pointer : Step A
  no_fuel : Step A

abbrev pub K : Type 0 → Type 0
K A = Kernel → Step A

infixl 5 ◌>>=◌ ◌>>◌
abbrev pub ◌>>=◌ : {A B : Type 0} → K A → (A → K B) → K B
◌>>=◌ m f k = elim (m k) [
  | next a k' ↦ f a k'
  | leave e k' ↦ leave e k'
  | null_pointer ↦ null_pointer
  | no_fuel ↦ no_fuel
]

abbrev pub ◌>>◌ : {A B : Type 0} → K A → K B → K B
m >> n = m >>= λ _. n

abbrev pub pure : {A : Type 0} → A → K A
pure a k = next a k

abbrev pub gets : {A : Type 0} → (Kernel → A) → K A
gets f k = next (f k) k

abbrev pub modify : (Kernel → Kernel) → K (Unit {0})
modify f k = next tt (f k)

abbrev pub exits : {A : Type 0} → Exit → K A
exits e k = leave e k

abbrev pub skip : K (Unit {0})
skip k = next tt k

abbrev pub from_run : {A B : Type 0} → (A → Kernel → Kernel) → (A → B) → Run A → K B
from_run set result r k = elim r [
  | ok a ↦ next (result a) (set a k)
  | null_dereference ↦ null_pointer
  | out_of_fuel ↦ no_fuel
]

-- An operation of asl.c or pcb.c.
abbrev pub on_tables : {A : Type 0} → (Tables → Run (A × Tables)) → K A
on_tables f k = from_run (λ r k. record k { tables = r.1 }) (λ r. r.0) (f k.tables) k

abbrev pub set_procs : Procs → Kernel → Kernel
set_procs m k = record k { tables = record k.tables { procs = m } }

abbrev pub on_procs : {A : Type 0} → (Procs → Run (A × Procs)) → K A
on_procs f k = from_run (λ r k. set_procs r.1 k) (λ r. r.0) (f k.tables.procs) k

abbrev pub on_procs_only : (Procs → Run Procs) → K (Unit {0})
on_procs_only f k = from_run set_procs (λ _. tt) (f k.tables.procs) k

abbrev pub asks : {A : Type 0} → (Tables → Run A) → K A
asks f k = from_run (λ _ k. k) (λ a. a) (f k.tables) k

-- `p->f`
abbrev pub proc : {A : Type 0} → (Procs → Ptr → A) → Ptr → K A
proc f p k = if p == null then null_pointer else next (f k.tables.procs p) k

-- `p->f = …`
abbrev pub set_proc : Ptr → (Procs → Procs) → K (Unit {0})
set_proc p f k = if p == null then null_pointer else next tt (set_procs (f k.tables.procs) k)

-- `p->p_s.r = …`
abbrev pub set_state : Ptr → (State → State) → K (Unit {0})
set_state p f = set_proc p λ m. record m { p_s = update m.p_s p (f (m.p_s p)) }

-- `*a` and `*a = w`, at a word of the memory.
abbrev pub read_word : ℕ → K ℕ
read_word a k = if a == null then null_pointer else next (k.machine.memory a) k

abbrev pub write_word : ℕ → ℕ → K (Unit {0})
write_word a w k =
    if a == null
    then null_pointer
    else next tt (record k { machine = record k.machine { memory = update k.machine.memory a w } })

abbrev pub read_int : ℕ → K ℤ
read_int a = read_word a >>= λ w. pure (int_of w)

abbrev pub write_int : ℕ → ℤ → K (Unit {0})
write_int a z = write_word a (word_of z)

-- The library's functions on the machine.
unfoldable pub get_tod_lo : K ℕ
get_tod_lo k =
    next (k.machine.clock k.machine.reads)
      (record k { machine = record k.machine { reads = suc k.machine.reads } })

abbrev pub get_status : K ℕ
get_status = gets λ k. k.machine.status

abbrev pub set_status : ℕ → K (Unit {0})
set_status w = modify λ k. record k { machine = record k.machine { status = w } }

abbrev pub set_timer : ℕ → K (Unit {0})
set_timer w = modify λ k. record k { machine = record k.machine { timer = w } }

abbrev pub set_current : Ptr → K (Unit {0})
set_current p = modify λ k. record k { current_process = p }

abbrev pub set_flag : ℕ → K (Unit {0})
set_flag f = modify λ k. record k { flag = f }

abbrev pub current : K Ptr
current = gets λ k. k.current_process

-- `process_count++`, `process_count--` and the same for `soft_block_count`.
abbrev pub incr_process_count : K (Unit {0})
incr_process_count = modify λ k. record k { process_count = k.process_count +ℤ pos 1 }

abbrev pub decr_process_count : K (Unit {0})
decr_process_count = modify λ k. record k { process_count = k.process_count -ℤ pos 1 }

abbrev pub incr_soft_block_count : K (Unit {0})
incr_soft_block_count = modify λ k. record k { soft_block_count = k.soft_block_count +ℤ pos 1 }

abbrev pub decr_soft_block_count : K (Unit {0})
decr_soft_block_count = modify λ k. record k { soft_block_count = k.soft_block_count -ℤ pos 1 }
