-- ===== src/Exceptions/Handlers.antt =====
-- The handlers of program traps and of system calls in source/exceptions.c, for a process that has a
-- handler of its own.
use Prim.Native.Nat.{bit_and}
use jae_os.Prelude.{
  ◌≡◌, ap, ◌∙◌, Bool, suc, update_self, ◌≢◌, true, null, update, ==_ne, ◌==◌, leb, ◌&&◌,
}
use jae_os.Prelude.Int.{add_word, sub_word}
use jae_os.Const.{State, pgmtp, load_current, excp_pgmt_old, excp_pgmt_new}
use jae_os.Arch.{Arch}
use jae_os.Kernel.{Kernel, get_tod_lo}
use jae_os.Kernel.Runs.{Leaves, nonnull-Leaves}
use jae_os.Syscall.Handlers.{copy_state}
use jae_os.Exceptions.{pgmtrap_handler, reserved_instruction, syscall_handler}
use jae_os.Exceptions.PassUp.{PassedUp, hand_over-PassedUp}

-- The nucleus when a handler has been entered: interrupts are off and the time has been noted.
abbrev pub entered : Arch → Kernel → Kernel
entered a k = record k {
  kernel_start = k.machine.clock k.machine.reads;
  machine = record k.machine {
    status = a.status_all_int_disable k.machine.status;
    reads = suc k.machine.reads;
  };
}

-- The register a1 has the cause of the exception.
abbrev pub with_cause : State → State → State
with_cause state s = record s { a1 = state.cp15_cause }

module _ (a : Arch) (k : Kernel) (ne : k.current_process ≢ null) where
  -- A program trap of a process that has specified a handler for it, from the state in which
  -- pgmtrap_handler has been entered.
  pub pgmtrap_handler-PassedUp :
      k.tables.procs.tags k.current_process pgmtp ≢ 0
      → Leaves
          (PassedUp a excp_pgmt_old excp_pgmt_new k.machine.pgmtrap_oldarea
            (with_cause k.machine.pgmtrap_oldarea)
            (entered a k))
          (pgmtrap_handler a k)
  unfolding pgmtrap_handler get_tod_lo
  pgmtrap_handler-PassedUp tag =
      let t = ==_ne (k.tables.procs.tags k.current_process pgmtp) 0 tag in
      nonnull-Leaves k.current_process ne _ _ (
        rw t (
          hand_over-PassedUp a excp_pgmt_old excp_pgmt_new k.machine.pgmtrap_oldarea
            (with_cause k.machine.pgmtrap_oldarea) (entered a k) ne))

-- The nucleus in syscall_handler when the state of the process has been saved.
abbrev pub taken : Arch → Kernel → Kernel
taken a k = record (entered a k) {
  flag = load_current;
  tables = record k.tables {
    procs = record k.tables.procs {
      p_s = update k.tables.procs.p_s k.current_process k.machine.sysbk_oldarea;
    };
  };
}

-- The state `s` as that of a program trap, for a reserved instruction.
abbrev pub reserved : Arch → State → State
reserved a s = record s { cp15_cause = a.cause_exccode_set s.cp15_cause a.exc_reservedinstr }

-- The nucleus as syscall_handler calls pgmtrap_handler, with the state `s` of the process: its time
-- has been charged, and the old area of program traps is filled.
abbrev pub trapped : Arch → State → Kernel → Kernel
trapped a s k = record k {
  tables = record k.tables {
    procs = record k.tables.procs {
      kernel_time = update k.tables.procs.kernel_time k.current_process (
          add_word (k.tables.procs.kernel_time k.current_process)
            (sub_word (k.machine.clock k.machine.reads) k.kernel_start));
    };
  };
  machine = record k.machine { reads = suc k.machine.reads; pgmtrap_oldarea = reserved a s };
}

module _ (a : Arch) (k : Kernel) (ne : k.current_process ≢ null) where
  reserved_instruction-PassedUp :
      (s : State)
      → k.tables.procs.p_s k.current_process ≡ s
      → k.tables.procs.tags k.current_process pgmtp ≢ 0
      → Leaves
          (PassedUp a excp_pgmt_old excp_pgmt_new
            (reserved a s)
            (with_cause (reserved a s))
            (entered a (trapped a s k)))
          (reserved_instruction a k)
  unfolding reserved_instruction get_tod_lo copy_state
  reserved_instruction-PassedUp s is tag = nonnull-Leaves k.current_process ne _ _ (
      nonnull-Leaves k.current_process ne _ _
        (rw is (pgmtrap_handler-PassedUp a (trapped a s k) ne tag)))

module _ (a : Arch) (k : Kernel) (ne : k.current_process ≢ null) where
  -- A number is that of a service, and the exception a system call.
  abbrev pub is_service : Bool
  is_service =
      let s = k.machine.sysbk_oldarea in
      (a.cause_exccode_get s.cp15_cause == a.exc_syscall) && (leb 1 s.a1 && leb s.a1 11)

  abbrev pub in_user_mode : Bool
  in_user_mode = bit_and k.machine.sysbk_oldarea.cpsr a.status_sys_mode == a.status_user_mode

  -- A process in user mode that asks for a service of the nucleus, and has specified a handler of
  -- program traps, does not get the service: control goes to that handler, with the cause of a
  -- reserved instruction in a1 and in the old area the state in which it asked. Its time in the
  -- nucleus is charged to it.
  pub syscall_handler-user :
      is_service ≡ true
      → in_user_mode ≡ true
      → k.tables.procs.tags k.current_process pgmtp ≢ 0
      → (let s = reserved a k.machine.sysbk_oldarea in
          Leaves
            (PassedUp a excp_pgmt_old excp_pgmt_new s
              (with_cause s)
              (entered a (trapped a k.machine.sysbk_oldarea (taken a k))))
            (syscall_handler a k))
  unfolding syscall_handler get_tod_lo copy_state
  syscall_handler-user service mode tag =
      let s = k.machine.sysbk_oldarea in
      let saved = update_self k.tables.procs.p_s k.current_process s in
      let m : (bit_and (update k.tables.procs.p_s k.current_process s k.current_process).cpsr
              a.status_sys_mode
            == a.status_user_mode)
          ≡ true =
        ap (λ (x : State). bit_and x.cpsr a.status_sys_mode == a.status_user_mode) saved ∙ mode in
      nonnull-Leaves k.current_process ne _ _ (
        rw service (
          nonnull-Leaves k.current_process ne _ _
            (rw m (reserved_instruction-PassedUp a (taken a k) ne s saved tag))))
