-- ===== src/Exceptions.antt =====
-- source/exceptions.c: the handlers of program traps, system calls and TLB exceptions.
pub mod PassUp
pub mod Handlers
pub mod Device
use Prim.Native.Nat.{bit_and, bit_or}
use jae_os.Prelude.{ℕ, ◌*◌, ◌%◌, ◌^◌, ◌==◌, leb, ◌&&◌, if◌then◌else◌, null, update}
use jae_os.Prelude.Int.{int_of, add_word, sub_word}
use jae_os.Const.{
  sys, tlb, pgmtp, load_current, excp_sys_old, excp_tlb_old, excp_pgmt_old, excp_sys_new,
  excp_tlb_new, excp_pgmt_new,
}
use jae_os.Arch.{Arch}
use jae_os.Kernel.{
  K, ◌>>=◌, ◌>>◌, ldst, panic, gets, modify, exits, skip, proc, set_proc, set_state, get_tod_lo,
  get_status, set_status, set_flag, current,
}
use jae_os.Scheduler.{scheduler}
use jae_os.Syscall.Process.{create_process, terminate_process, get_cputime, getpid}
use jae_os.Syscall.Semaphore.{semaphore_operation, wait_clock}
use jae_os.Syscall.Handlers.{
  copy_state, set_area, specify_sysbp, specify_tlb, specify_pgmtrap, exit_trap,
}
use jae_os.Syscall.Device.{io_devop}

-- `kernel_start = getTODLO()`
abbrev pub start_kernel_time : K (Unit {0})
start_kernel_time = do now ← get_tod_lo; modify λ k. record k { kernel_start = now }

-- `kernel_end = getTODLO(); current_process->kernel_time += (kernel_end - kernel_start)`
abbrev pub charge_kernel_time : K (Unit {0})
charge_kernel_time = do
  now ← get_tod_lo
  began ← gets (λ k. k.kernel_start)
  p ← current
  set_proc p λ m. record m {
    kernel_time = update m.kernel_time p (add_word (m.kernel_time p) (sub_word now began));
  }

module _ (a : Arch) where
  -- `setSTATUS(STATUS_ALL_INT_DISABLE(getSTATUS()))`
  abbrev pub disable_interrupts : K (Unit {0})
  disable_interrupts = do s ← get_status; set_status (a.status_all_int_disable s)

  abbrev pub enable_interrupts : K (Unit {0})
  enable_interrupts = do s ← get_status; set_status (a.status_all_int_enable s)

  -- `terminate_process(current_process->pid); scheduler();`
  abbrev pub kill_current : K (Unit {0})
  kill_current = do p ← current; id ← proc (λ m. m.pid) p; terminate_process a id; scheduler a

  -- Control goes to the handler of the current process whose new area is `new`.
  abbrev pub pass_up : ℕ → K (Unit {0})
  pass_up new = do
    p ← current
    set_area p new (λ s. record s { cpsr = a.status_all_int_enable s.cpsr })
    areas ← proc (λ m. m.oldnew_areas) p
    exits (ldst (areas new))

  unfoldable pub pgmtrap_handler : K (Unit {0})
  unfolding terminate_process scheduler copy_state get_tod_lo
  pgmtrap_handler = do
    disable_interrupts
    start_kernel_time
    p ← current
    tags ← proc (λ m. m.tags) p
    if tags pgmtp == 0 then kill_current else do
      state ← gets (λ k. k.machine.pgmtrap_oldarea)
      set_area p excp_pgmt_old (λ area. copy_state area state)
      set_area p excp_pgmt_new (λ s. record s { a1 = state.cp15_cause })
      charge_kernel_time
      pass_up excp_pgmt_new

  -- The `switch` of syscall_handler.
  unfoldable pub dispatch_syscall : ℕ → ℕ → ℕ → ℕ → K (Unit {0})
  unfolding create_process terminate_process semaphore_operation specify_sysbp specify_tlb
      specify_pgmtrap exit_trap get_cputime wait_clock io_devop getpid
  dispatch_syscall n a2 a3 a4 =
      if n == 1
      then (do p ← current; r ← create_process a a2; set_state p (λ s. record s { a1 = r }))
      else if n == 2
      then terminate_process a a2
      else if n == 3
      then semaphore_operation a a2 (int_of a3)
      else if n == 4
      then specify_sysbp a a2 a3 a4
      else if n == 5
      then specify_tlb a a2 a3 a4
      else if n == 6
      then specify_pgmtrap a a2 a3 a4
      else if n == 7
      then exit_trap a2 a3
      else if n == 8
      then get_cputime a2 a3
      else if n == 9
      then wait_clock a
      else if n == 10
      then (do p ← current; r ← io_devop a a2 a3 a4; set_state p (λ s. record s { a1 = r }))
      else if n == 11
      then (do p ← current; r ← getpid; set_state p (λ s. record s { a1 = r }))
      else exits panic

  -- The branch of syscall_handler for a service that a process in user mode asks for.
  unfoldable pub reserved_instruction : K (Unit {0})
  unfolding pgmtrap_handler copy_state get_tod_lo
  reserved_instruction = do
    p ← current
    saved ← proc (λ m. m.p_s) p
    modify λ k. record k {
      machine = record k.machine {
        pgmtrap_oldarea =
            let s = copy_state k.machine.pgmtrap_oldarea saved in
            record s { cp15_cause = a.cause_exccode_set s.cp15_cause a.exc_reservedinstr };
      };
    }
    charge_kernel_time
    pgmtrap_handler

  -- The branch for other numbers and for breakpoints.
  unfoldable pub pass_up_syscall : ℕ → ℕ → ℕ → ℕ → K (Unit {0})
  unfolding terminate_process scheduler copy_state get_tod_lo
  pass_up_syscall n a2 a3 a4 = do
    p ← current
    tags ← proc (λ m. m.tags) p
    if tags sys == 0 then kill_current else do
      state ← gets (λ k. k.machine.sysbk_oldarea)
      set_area p excp_sys_old (λ area. copy_state area state)
      set_area p excp_sys_new λ s. record s {
        a1 = bit_or (bit_and n 0x0fff_ffff) (bit_and state.cpsr 0xf * 2 ^ 28 % 2 ^ 32);
        a2 = a2;
        a3 = a3;
        a4 = a4;
      }
      charge_kernel_time
      pass_up excp_sys_new

  unfoldable pub syscall_handler : K (Unit {0})
  unfolding dispatch_syscall reserved_instruction pass_up_syscall copy_state scheduler get_tod_lo
  syscall_handler = do
    disable_interrupts
    set_flag load_current
    state ← gets (λ k. k.machine.sysbk_oldarea)
    p ← current
    set_proc p (λ m. record m { p_s = update m.p_s p (copy_state (m.p_s p) state) })
    start_kernel_time
    let n = state.a1
    if a.cause_exccode_get state.cp15_cause == a.exc_syscall && (leb 1 n && leb n 11)
        then (do
          saved ← proc (λ m. m.p_s) p
          if bit_and saved.cpsr a.status_sys_mode == a.status_user_mode
              then reserved_instruction
              else do
                dispatch_syscall n state.a2 state.a3 state.a4
                q ← current
                if q == null then skip else charge_kernel_time
                scheduler a)
        else pass_up_syscall n state.a2 state.a3 state.a4

  unfoldable pub tlb_handler : K (Unit {0})
  unfolding terminate_process scheduler copy_state get_tod_lo
  tlb_handler = do
    disable_interrupts
    state ← gets (λ k. k.machine.tlb_oldarea)
    start_kernel_time
    p ← current
    tags ← proc (λ m. m.tags) p
    if tags tlb == 0 then kill_current else skip
    p ← current
    set_area p excp_tlb_old (λ area. copy_state area state)
    set_area p excp_tlb_new (λ s. record s { a1 = state.cp15_cause })
    charge_kernel_time
    pass_up excp_tlb_new
