-- ===== src/Interrupts.antt =====
-- source/interrupts.c: the handlers of the interval timer, of devices and of terminals.
pub mod Lines
pub mod Clock
pub mod Wake
use Prim.Native.Nat.{bit_and}
use jae_os.Prelude.{
  ℕ, zero, suc, ◌+◌, ◌*◌, ◌%◌, ◌^◌, ◌==◌, ltb, ◌&&◌, not, if◌then◌else◌, null, update,
}
use jae_os.Prelude.Int.{pos, ltb_ℤ, sub_word}
use jae_os.Const.{reset, load_next, sched_bogus_slice}
use jae_os.Arch.{Arch, device_sem_at}
use jae_os.Asl.{head_blocked}
use jae_os.Kernel.{
  K, no_fuel, ◌>>=◌, ◌>>◌, gets, modify, skip, asks, set_proc, set_state, read_int, get_tod_lo,
  set_timer, set_flag, current,
}
use jae_os.Scheduler.{scheduler}
use jae_os.Syscall.Handlers.{copy_state}
use jae_os.Syscall.Semaphore.{semaphore_operation}
use jae_os.Exceptions.{start_kernel_time, charge_kernel_time, disable_interrupts, enable_interrupts}

-- The loop of find_dnum over the eight devices of a line.
unfoldable pub find_loop : ℕ → ℕ → ℕ → ℕ → ℕ
find_loop zero bitmap mask i = i
find_loop (suc left) bitmap mask i =
    let rest = find_loop left bitmap (mask * 2 % 2 ^ 32) (i + 1) in
    if not (bit_and mask bitmap == mask) && ltb i 8 then rest else i

unfoldable pub find_dnum : ℕ → ℕ
unfolding find_loop
find_dnum bitmap = find_loop 9 bitmap 1 0

module _ (a : Arch) where
  -- The first process that waits for a device gets its status and goes on, if there may be one.
  unfoldable pub wake_waiting : ℕ → ℕ → K (Unit {0})
  unfolding semaphore_operation
  wake_waiting sem status = do
    value ← read_int sem
    if ltb_ℤ value (pos 1)
        then (do
          tmp ← asks (head_blocked sem)
          set_state tmp (λ s. record s { a1 = status })
          semaphore_operation a sem (pos 1))
        else skip

  unfoldable pub dev_handler : ℕ → K (Unit {0})
  unfolding find_dnum wake_waiting
  dev_handler int_type = do
    bitmap ← gets (λ k. k.machine.memory (a.cdev_bitmap_addr int_type))
    let dnum = find_dnum bitmap
    let reg = a.dev_reg_addr int_type dnum
    status ← gets (λ k. k.machine.dtp_status reg)
    wake_waiting (device_sem_at a (a.ext_il_index int_type * a.dev_per_int + dnum)) status
    modify λ k. record k {
      machine = record k.machine { dtp_command = update k.machine.dtp_command reg a.dev_c_ack };
    }

  -- `while (device_sem[CLOCK_SEM] < 0) semaphore_operation(&device_sem[CLOCK_SEM], 1);`
  unfoldable pub tick_loop : ℕ → K (Unit {0})
  unfolding semaphore_operation
  tick_loop zero k = no_fuel
  tick_loop (suc fuel) k =
      (do
        value ← read_int (device_sem_at a a.clock_sem)
        if ltb_ℤ value (pos 0)
            then (do semaphore_operation a (device_sem_at a a.clock_sem) (pos 1); tick_loop fuel)
            else skip)
        k

  -- At most `fuel` processes wait for the clock.
  unfoldable pub timer_handler : ℕ → K (Unit {0})
  unfolding tick_loop
  timer_handler fuel = do
    ticks ← gets (λ k. k.pseudoclockflag)
    if ticks == 1 then (do tick_loop fuel; set_flag reset) else skip
    set_timer sched_bogus_slice

  unfoldable pub terminal_handler : K (Unit {0})
  unfolding find_dnum wake_waiting
  terminal_handler = do
    bitmap ← gets (λ k. k.machine.memory (a.cdev_bitmap_addr a.int_terminal))
    let dnum = find_dnum bitmap
    let reg = a.dev_reg_addr a.int_terminal dnum
    let base = a.ext_il_index a.int_terminal * a.dev_per_int
    received ← gets (λ k. k.machine.recv_status reg)
    if bit_and received 0xff == a.dev_trcv_s_charrecv
        then (do
          wake_waiting (device_sem_at a (base + a.dev_per_int + dnum)) received
          modify λ k. record k {
            machine = record k.machine {
              recv_command = update k.machine.recv_command reg a.dev_c_ack;
            };
          })
        else skip
    sent ← gets (λ k. k.machine.transm_status reg)
    if bit_and sent 0xff == a.dev_ttrs_s_chartrsm
        then (do
          wake_waiting (device_sem_at a (base + dnum)) sent
          modify λ k. record k {
            machine = record k.machine {
              transm_command = update k.machine.transm_command reg a.dev_c_ack;
            };
          })
        else skip

  unfoldable pub interrupt_handler : ℕ → K (Unit {0})
  unfolding timer_handler dev_handler terminal_handler scheduler copy_state get_tod_lo
  interrupt_handler fuel = do
    disable_interrupts a
    start_kernel_time
    cause ← gets (λ k. k.machine.cause)
    set_flag load_next
    p ← current
    if p == null then skip else (do
      state ← gets (λ k. k.machine.int_oldarea)
      set_proc p (λ m. record m { p_s = update m.p_s p (copy_state (m.p_s p) state) })
      set_state p (λ s. record s { pc = sub_word s.pc a.word_size }))
    if a.cause_ip_get cause a.int_timer
        then timer_handler fuel
        else if a.cause_ip_get cause a.int_disk
        then dev_handler a.int_disk
        else if a.cause_ip_get cause a.int_tape
        then dev_handler a.int_tape
        else if a.cause_ip_get cause a.int_unused
        then dev_handler a.int_unused
        else if a.cause_ip_get cause a.int_printer
        then dev_handler a.int_printer
        else if a.cause_ip_get cause a.int_terminal
        then terminal_handler
        else skip
    q ← current
    if q == null then skip else charge_kernel_time
    enable_interrupts a
    scheduler a
