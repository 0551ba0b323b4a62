-- ===== src/Scheduler/Deadlock.antt =====
-- deadlock_detection of source/scheduler.c: what the nucleus does when no process is ready.
use jae_os.Prelude.{◌≡◌, refl, true, false, ℕ, zero, suc, arith}
use jae_os.Prelude.Int.{pos, ltb_ℤ, eqb_ℤ}
use jae_os.Const.{sched_time_slice}
use jae_os.Arch.{Arch}
use jae_os.Kernel.{Kernel, Exit, halt, panic, wait}
use jae_os.Kernel.Runs.{Leaves, leaves}
use jae_os.Scheduler.{deadlock_detection}

-- How the nucleus stops with `processes` in the system, of which `blocked` wait for semaphores.
abbrev pub stop : ℕ → ℕ → Exit
stop zero blocked = halt
stop (suc processes) zero = panic
stop (suc processes) (suc blocked) = wait

-- Before it waits, the timer is set and the interrupts are enabled.
abbrev pub armed : Arch → ℕ → ℕ → Kernel → Kernel
armed a zero blocked k = k
armed a (suc processes) zero k = k
armed a (suc processes) (suc blocked) k = record k {
  machine = record k.machine {
    timer = sched_time_slice;
    status = a.status_all_int_enable k.machine.status;
  };
}

some_left : (n : ℕ) → eqb_ℤ (pos (suc n)) (pos 0) ≡ false
some_left n = ground arith

some_lt : (n : ℕ) → ltb_ℤ (pos 0) (pos (suc n)) ≡ true
some_lt n = ground arith

-- With counts that are not negative, deadlock_detection halts the machine if there is no process,
-- panics if there are processes and none waits for a device, and else sets the timer, enables the
-- interrupts and waits.
pub deadlock_detection-Leaves :
    (a : Arch) (k : Kernel) (processes blocked : ℕ)
    → k.process_count ≡ pos processes
    → k.soft_block_count ≡ pos blocked
    → Leaves
        (λ e k'. (e ≡ stop processes blocked) × (k' ≡ armed a processes blocked k))
        (deadlock_detection a k)
unfolding deadlock_detection
deadlock_detection-Leaves a k zero blocked n b = rw (n, b) (leaves (refl, refl))
deadlock_detection-Leaves a k (suc processes) zero n b =
    rw (n, b, some_left processes, some_lt processes) (leaves (refl, refl))
deadlock_detection-Leaves a k (suc processes) (suc blocked) n b =
    rw (n, b, some_left processes, some_left blocked, some_lt processes, some_lt blocked)
      (leaves (refl, refl))
