-- ===== src/Initial.antt =====
-- source/initial.c: main prepares the new areas and the tables, and starts the first process.
pub mod Start
pub mod Devices
use Prim.Native.Nat.{bit_or}
use jae_os.Prelude.{ℕ, zero, suc, ◌+◌, ◌-◌, ◌%◌, ◌^◌, ◌==◌, if◌then◌else◌, null, update}
use jae_os.Prelude.Int.{sub_word, pos}
use jae_os.Const.{State, start}
use jae_os.Arch.{Arch, device_sem_at}
use jae_os.Pcb.{alloc_pcb, init_pcbs}
use jae_os.Asl.{init_asl}
use jae_os.Kernel.{
  Kernel, K, ◌>>=◌, ◌>>◌, panic, gets, modify, exits, on_procs, asks, proc, set_proc, set_state,
  set_flag, incr_process_count,
}
use jae_os.Scheduler.{insert_ready, scheduler}
use jae_os.Syscall.Pid.{pid_generator}

-- `for (i = 0; i < MAX_DEVICES; i++) device_sem[i] = 0;`, `left` rounds from `i` on.
unfoldable pub clear_semaphores : Arch → ℕ → ℕ → (ℕ → ℕ) → ℕ → ℕ
clear_semaphores a zero i memory = memory
clear_semaphores a (suc left) i memory =
    clear_semaphores a left (i + 1) (update memory (device_sem_at a i) 0)

module _ (a : Arch) where
  -- A new area: the handler's code, the stack at the top of the memory, interrupts disabled.
  abbrev pub new_area : ℕ → State → State
  new_area handler s = record s {
    pc = handler;
    sp = a.ram_top;
    cpsr = a.status_all_int_disable (bit_or a.status_null a.status_sys_mode);
  }

  abbrev pub with_areas : Kernel → Kernel
  with_areas k = record k {
    machine = record k.machine {
      int_newarea = new_area a.interrupt_handler k.machine.int_newarea;
      tlb_newarea = new_area a.tlb_handler k.machine.tlb_newarea;
      pgmtrap_newarea = new_area a.pgmtrap_handler k.machine.pgmtrap_newarea;
      sysbk_newarea = new_area a.syscall_handler k.machine.sysbk_newarea;
    };
  }

  abbrev pub initialised : Kernel → Kernel
  initialised k = record k {
    tables = init_asl (record k.tables { procs = init_pcbs k.tables.procs });
    process_count = pos 0;
    soft_block_count = pos 0;
    current_process = null;
    machine = record k.machine { memory = clear_semaphores a a.max_devices 0 k.machine.memory };
  }

  -- The state in which the first process starts.
  abbrev pub first_state : State → State
  first_state s = record s {
    cp15_control = a.cp15_disable_vm s.cp15_control;
    cpsr = bit_or (a.status_enable_timer (a.status_all_int_enable a.status_null)) a.status_sys_mode;
    sp = sub_word a.ram_top a.frame_size;
    pc = a.test;
  }

  unfoldable pub main : K (Unit {0})
  unfolding pid_generator scheduler
  main = do
    modify with_areas
    modify initialised
    first ← on_procs (alloc_pcb a.alloc_tmp)
    if first == null then exits panic else do
      incr_process_count
      x ← proc (λ m. m.pid) first
      y ← gets (λ k. k.counter)
      id ← asks (λ _. pid_generator x y)
      set_proc first (λ m. record m { pid = update m.pid first id })
      modify (λ k. record k { counter = (k.counter + 1) % 2 ^ 32 })
      set_state first first_state
      insert_ready first
      set_flag start
      modify (λ k. record k { pseudoclockflag = 0; kernel_start = 0 })
      scheduler a
