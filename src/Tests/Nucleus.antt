-- ===== src/Tests/Nucleus.antt =====
-- Runs of the nucleus: the scheduler, the P operation and the helpers.
use jae_os.Prelude.{◌≡◌, refl, [], ◌∷◌, ok, arith, ◌+◌, ◌*◌, ◌^◌, ◌%◌, inr}
use jae_os.Prelude.Int.{ltb_ℤ, pos, negsuc, add_int, int_of}
use jae_os.Clist.Ring.{filled, vacant}
use jae_os.Kernel.Runs.{Proceeds, Leaves}
use jae_os.Kernel.{Kernel, next}
use jae_os.Scheduler.{loadnext}
use jae_os.Scheduler.Ready.{Ready, Queued}
use jae_os.Scheduler.Dispatch.{Dispatched, loadnext-round_robin}
use jae_os.Scheduler.Deadlock.{stop}
use jae_os.Scheduler.Idle.{loadnext-idle}
use jae_os.Syscall.Semaphore.{passeren, demand}
use jae_os.Syscall.Semaphore.Passeren.{AfterP, passeren-AfterP}
use jae_os.Syscall.Pid.{pid_generator}
use jae_os.Syscall.Pid.Digits.{pid_generator-digits}
use jae_os.Interrupts.{find_dnum}
use jae_os.Interrupts.Lines.{IsFirst, find_dnum-IsFirst}
use jae_os.Arch.{device_sem_at}
use jae_os.Initial.{main}
use jae_os.Initial.Start.{Started, loaded, main-Started}
use jae_os.Initial.Devices.{main-Cleared}
use jae_os.Asl.Spec.{view}
use jae_os.Asl.Waiting.{waiting_for}
use jae_os.Syscall.Semaphore.Demand.{total, demand-total}
use jae_os.Tests.Data.{differ, entries, free_entries, tables-IsAsl}
use jae_os.Tests.Boot.{arch, kernel}

pub kernel-Ready : Ready kernel (9 ∷ [])
kernel-Ready =
    filled []
      (record { walk = refl; fresh = tt; distinct = tt; nonnull = tt; tail_ne = differ 9 0 refl })
      refl

loadnext-round_robin_example :
    Leaves
      (λ e k'. Dispatched arch kernel 9 (8 ∷ []) e k' × Queued (8 ∷ 9 ∷ []) kernel k')
      (loadnext arch kernel)
loadnext-round_robin_example =
    loadnext-round_robin arch kernel (9 ∷ []) 9 (8 ∷ []) kernel-Ready (differ 9 8 refl, tt) refl

abbrev idle : Kernel
idle = record kernel { readyqueue = 0; current_process = 0 }

loadnext-idle_example : Leaves (λ e k'. e ≡ stop 5 3) (loadnext arch idle)
loadnext-idle_example = loadnext-idle arch idle 5 3 (vacant refl refl) refl refl refl

passeren-AfterP_example :
    Proceeds
      (λ _ k'.
        AfterP
          (ltb_ℤ (add_int (int_of (kernel.machine.memory 200)) (negsuc 0)) (pos 0))
          200
          (add_int (int_of (kernel.machine.memory 200)) (negsuc 0))
          entries
          kernel
          k')
      (passeren 200 (negsuc 0) kernel)
passeren-AfterP_example =
    passeren-AfterP kernel entries free_entries tables-IsAsl 200 (differ 200 0 refl)
      (differ 8 0 refl) (omega arith)
      ((differ 1 8 refl, (differ 2 8 refl, (differ 3 8 refl, tt))), tt) (λ e. cc) (negsuc 0)

pid_generator-digits_example : pid_generator 7 12 ≡ ok ((7 * 10 ^ (1 + 1) + 12) % 2 ^ 32)
pid_generator-digits_example =
    pid_generator-digits 7 12 1 (omega arith) (omega arith, inr (omega arith))

find_dnum-IsFirst_example : IsFirst 20 (find_dnum 20)
find_dnum-IsFirst_example = find_dnum-IsFirst 20

main-Started_example : Leaves (Started arch) (main arch (loaded kernel))
main-Started_example = main-Started arch kernel

main-Cleared_example :
    Leaves (λ _ k'. k'.machine.memory (device_sem_at arch 48) ≡ 0) (main arch (loaded kernel))
main-Cleared_example = main-Cleared arch kernel 48 (omega arith)

demand-total_example :
    demand 100 kernel
    ≡ next (total kernel.tables.procs.res_wait (pos 0) (waiting_for 100 (view entries))) kernel
demand-total_example = demand-total kernel 100 entries free_entries tables-IsAsl
