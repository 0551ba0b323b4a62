-- ===== src/Syscall/Semaphore.antt =====
-- Semaphores in source/syscall.c: semaphore_operation and wait_clock. A process that blocks on
-- `weight < 0` keeps it in `res_wait`.
pub mod Passeren
pub mod Demand
pub mod Serve
pub mod Verhogen
pub mod Wakes
pub mod Units
use jae_os.Prelude.{
  ℕ, zero, suc, ◌-◌, true, false, some, none, ◌==◌, ◌&&◌, not, if◌then◌else◌, Ptr, null, update,
}
use jae_os.Prelude.Int.{ℤ, pos, negsuc, ltb_ℤ, eqb_ℤ, add_int, sub_int, add_word, sub_word}
use jae_os.Const.{rounds, load_next}
use jae_os.Arch.{Arch, device_sem_at}
use jae_os.Clist.{clist_head}
use jae_os.Pcb.{queue}
use jae_os.Asl.{insert_blocked, head_blocked, out_blocked}
use jae_os.Kernel.{
  K, null_pointer, no_fuel, ◌>>=◌, ◌>>◌, panic, pure, gets, exits, skip, on_tables, asks, proc,
  set_proc, read_int, write_int, get_tod_lo, set_current, set_flag, current, incr_soft_block_count,
  decr_soft_block_count,
}
use jae_os.Scheduler.{insert_ready}
use jae_os.Syscall.Process.{terminate_process}

-- The loop of verhogen over the waiting processes, which adds up what they ask for. The macro reads
-- the queue's header through the process at hand.
unfoldable pub demand_loop : ℕ → Ptr → Ptr → ℤ → K ℤ
demand_loop zero scan tmp sum k = no_fuel
demand_loop (suc fuel) scan tmp sum k =
    (do
      s ← proc (λ m. m.p_cursem) scan
      header ← gets (λ k. k.tables.s_procq s)
      if tmp == header then pure sum else do
        wanted ← proc (λ m. m.res_wait) scan
        after ← proc (λ m. m.p_list) scan
        demand_loop fuel after scan (sub_int sum wanted))
      k

-- What the processes that wait for the semaphore ask for.
unfoldable pub demand : ℕ → K ℤ
unfolding demand_loop
demand semaddr = do
  scan ← asks (head_blocked semaddr)
  if scan == null then pure (pos 0) else do
    s ← proc (λ m. m.p_cursem) scan
    header ← gets (λ k. k.tables.s_procq s)
    if header == null then pure (pos 0) else do
      first ← asks (λ t. clist_head (queue t.procs header))
      demand_loop rounds first null (pos 0)

-- The body of verhogen's loop: the first process goes from the semaphore to the ready queue.
unfoldable pub wake_first : Ptr → K (Unit {0})
wake_first p = do
  tmp ← on_tables (out_blocked p)
  set_proc tmp (λ m. record m { p_cursem = update m.p_cursem tmp null })
  decr_soft_block_count
  set_proc tmp (λ m. record m { res_wait = update m.res_wait tmp (pos 0) })
  insert_ready tmp

-- The `while` loop of verhogen: processes are made ready as long as the first one's demand is met.
unfoldable pub serve_loop : ℕ → ℕ → ℤ → K (Unit {0})
unfolding wake_first
serve_loop zero semaddr sum k = no_fuel
serve_loop (suc fuel) semaddr sum k =
    (do
      tmp ← asks (head_blocked semaddr)
      if tmp == null then skip else do
        wanted ← proc (λ m. m.res_wait) tmp
        if not (ltb_ℤ wanted (sub_int (pos 0) sum)) && not (eqb_ℤ sum (pos 0))
            then (do wake_first tmp; serve_loop fuel semaddr (add_int sum wanted))
            else skip)
      k

-- The current process waits for the semaphore.
unfoldable pub block_current : ℕ → ℤ → K (Unit {0})
unfolding get_tod_lo
block_current semaddr weight = do
  p ← current
  set_proc p (λ m. record m { res_wait = update m.res_wait p weight })
  now ← get_tod_lo
  began ← gets (λ k. k.kernel_start)
  set_proc p λ m. record m {
    kernel_time = update m.kernel_time p (add_word (m.kernel_time p) (sub_word now began));
  }
  now ← get_tod_lo
  began ← gets (λ k. k.start_tod)
  set_proc p λ m. record m {
    global_time = update m.global_time p (add_word (m.global_time p) (sub_word now began));
  }
  full ← on_tables (insert_blocked semaddr p)
  elim full [ some true ↦ exits panic | some false ↦ skip | none ↦ λ k. null_pointer ]
  incr_soft_block_count
  set_flag load_next
  set_current null

unfoldable pub passeren : ℕ → ℤ → K (Unit {0})
unfolding block_current
passeren semaddr weight = do
  value ← read_int semaddr
  write_int semaddr (add_int value weight)
  value ← read_int semaddr
  if ltb_ℤ value (pos 0) then block_current semaddr weight else skip

unfoldable pub verhogen : ℕ → ℤ → K (Unit {0})
unfolding demand serve_loop
verhogen semaddr weight = do
  value ← read_int semaddr
  write_int semaddr (add_int value weight)
  sum ← demand semaddr
  value ← read_int semaddr
  serve_loop rounds semaddr (add_int sum value)

module _ (a : Arch) where
  unfoldable pub semaphore_operation : ℕ → ℤ → K (Unit {0})
  unfolding passeren verhogen terminate_process
  semaphore_operation semaddr weight =
      if semaddr == null
      then exits panic
      else if eqb_ℤ weight (pos 0)
      then (do p ← current; id ← proc (λ m. m.pid) p; terminate_process a id)
      else if ltb_ℤ weight (pos 0)
      then passeren semaddr weight
      else verhogen semaddr weight

  unfoldable pub wait_clock : K (Unit {0})
  unfolding semaphore_operation
  wait_clock = semaphore_operation (device_sem_at a (a.max_devices - 1)) (negsuc 0)
