-- ===== src/Tests/Traps.antt =====
-- Runs of the handlers of exceptions and of interrupts.
use jae_os.Exceptions.Device.{Requested, dispatch_syscall-Busy}
use jae_os.Prelude.{◌≡◌, refl, subst, sym, ◌∙◌, [], ◌∷◌, arith, ◌==◌, if◌then◌else◌}
use jae_os.Prelude.Int.{add_int, negsuc, pos, int_of}
use jae_os.Const.{excp_pgmt_old, excp_pgmt_new}
use jae_os.Arch.{Arch}
use jae_os.Pcb.{zero_state}
use jae_os.Asl.Spec.{view}
use jae_os.Asl.Waiting.{waiting_for, waiting_for-present}
use jae_os.Kernel.{Kernel}
use jae_os.Kernel.Runs.{Proceeds, Leaves}
use jae_os.Syscall.Semaphore.{verhogen}
use jae_os.Syscall.Semaphore.Passeren.{charge, charge-IsAsl, set_value}
use jae_os.Syscall.Semaphore.Wakes.{Queues, Woke, v_value, v_served, verhogen-Woke}
use jae_os.Syscall.Semaphore.Units.{IsUnit}
use jae_os.Exceptions.{dispatch_syscall, syscall_handler}
use jae_os.Exceptions.PassUp.{PassedUp}
use jae_os.Exceptions.Handlers.{entered, taken, trapped, reserved, with_cause, syscall_handler-user}
use jae_os.Interrupts.{find_dnum, find_loop, timer_handler, dev_handler}
use jae_os.Interrupts.Clock.{AfterTick, timer_handler-AfterTick}
use jae_os.Interrupts.Wake.{AfterDevice, device_reg, device_key, dev_handler-AfterDevice}
use jae_os.Tests.Data.{differ, tables, entries, waiting, free_entries, tables-IsAsl}
use jae_os.Tests.Boot.{arch, machine, kernel}
use jae_os.Tests.Nucleus.{kernel-Ready}

-- The semaphore at 100 is that of the clock and of the first disk.
abbrev low_arch : Arch
low_arch = record arch { device_sem = 100; clock_sem = 0 }

-- Its three processes wait for a unit each.
abbrev units : Kernel
units = record kernel {
  tables = charge (λ q. negsuc 0) (λ q. 0) (λ q. 0) tables;
  pseudoclockflag = 1;
  machine = record machine {
    memory = λ n. if n == 100 then 4294967293 else if n == 3 then 1 else 0;
  };
}

units-Queues : Queues units entries free_entries (9 ∷ [])
units-Queues = record {
  asl = charge-IsAsl _ _ _ tables entries free_entries tables-IsAsl;
  ready = kernel-Ready;
  outside = (((differ 1 9 refl, (differ 2 9 refl, (differ 3 9 refl, tt))), tt), tt);
}

three_wait : waiting_for 100 (view entries) ≡ 1 ∷ 2 ∷ 3 ∷ []
three_wait = waiting_for-present 100 [] waiting [] tt refl

units-IsUnit : IsUnit units 100 (waiting_for 100 (view entries))
unfolding int_of
units-IsUnit =
    subst (IsUnit units 100) (sym three_wait)
      (record { value = refl; wants = (refl, (refl, (refl, tt))) })

verhogen-Woke_example :
    Proceeds
      (λ _ k'.
        Woke 100
          (view entries)
          (9 ∷ [])
          (v_served units 100 (pos 2) entries).0
          (v_served units 100 (pos 2) entries).1
          (set_value 100 (v_value units 100 (pos 2) entries) units)
          k')
      (verhogen 100 (pos 2) units)
verhogen-Woke_example =
    verhogen-Woke units 100 (pos 2) entries free_entries (9 ∷ []) units-Queues (differ 100 0 refl)

timer_handler-AfterTick_example :
    Proceeds
      (λ _ k'.
        (k1 : Kernel) × AfterTick low_arch
          (differ 100 0 refl)
          (waiting_for 100 (view entries))
          entries
          (9 ∷ [])
          units
          k1
        × (k' ≡ record k1 { flag = 1; machine = record k1.machine { timer = 500000 } }))
      (timer_handler low_arch 21 units)
timer_handler-AfterTick_example =
    timer_handler-AfterTick low_arch (differ 100 0 refl) 21 units entries free_entries (9 ∷ [])
      (omega arith) units-Queues units-IsUnit refl

first_disk : device_key low_arch 3 units ≡ 100
unfolding find_dnum find_loop
first_disk = refl

dev_handler-AfterDevice_example :
    AfterDevice low_arch
      (device_reg low_arch 3 units)
      (waiting_for (device_key low_arch 3 units) (view entries))
      (device_key low_arch 3 units)
      entries
      (9 ∷ [])
      0
      units
      (dev_handler low_arch 3 units)
dev_handler-AfterDevice_example =
    dev_handler-AfterDevice low_arch 3 units entries free_entries (9 ∷ []) units-Queues
      (λ e. differ 100 0 refl (sym first_disk ∙ e))
      (subst (λ j. IsUnit units j (waiting_for j (view entries))) (sym first_disk) units-IsUnit)

-- The current process handles its own exceptions, and has asked for the service 3 in user mode.
abbrev trapping : Kernel
trapping = record kernel {
  tables = record tables { procs = record tables.procs { tags = λ q i. 1 } };
  machine = record machine {
    sysbk_oldarea = record zero_state { a1 = 3; cpsr = 16; cp15_cause = 8 };
  };
}

syscall_handler-user_example :
    Leaves
      (PassedUp arch excp_pgmt_old excp_pgmt_new
        (reserved arch trapping.machine.sysbk_oldarea)
        (with_cause (reserved arch trapping.machine.sysbk_oldarea))
        (entered arch (trapped arch trapping.machine.sysbk_oldarea (taken arch trapping))))
      (syscall_handler arch trapping)
syscall_handler-user_example =
    syscall_handler-user arch trapping (differ 8 0 refl) refl refl (differ 1 0 refl)

dispatch_syscall-Busy_example :
    Proceeds
      (λ _ k'. Requested arch 7 3 0 entries kernel k')
      (dispatch_syscall arch 10 7 3 0 kernel)
unfolding add_int
dispatch_syscall-Busy_example =
    dispatch_syscall-Busy arch 7 3 0 kernel entries free_entries tables-IsAsl (differ 8 0 refl)
      (omega arith) ((differ 1 8 refl, (differ 2 8 refl, (differ 3 8 refl, tt))), tt) (λ e. cc)
      (differ 1000 0 refl) refl
