-- ===== src/Syscall/Process.antt =====
-- Creation and termination of processes in source/syscall.c.
pub mod Bury
pub mod Unblock
pub mod Death
pub mod Family
pub mod Killed
pub mod Doomed
pub mod Terminate
pub mod Register
pub mod Settle
pub mod Create
pub mod Removal
pub mod Exit
pub mod Progeny
pub mod Search
pub mod Descendant
pub mod Found
use jae_os.Prelude.{
  ℕ, zero, suc, ◌+◌, ◌-◌, ◌%◌, ◌^◌, Bool, true, false, ◌==◌, leb, ◌&&◌, ◌||◌, if◌then◌else◌, Ptr,
  null, update,
}
use jae_os.Prelude.Int.{sub_int, sub_word}
use jae_os.Const.{State, rounds, load_next}
use jae_os.Arch.{Arch, device_sem_at}
use jae_os.Clist.{clist_head}
use jae_os.Pcb.{
  children, alloc_pcb, free_pcb, insert_child, remove_child, empty_child, out_child, out_proc_q,
}
use jae_os.Asl.{out_blocked}
use jae_os.Kernel.{
  K, null_pointer, next, no_fuel, ◌>>=◌, ◌>>◌, panic, pure, gets, modify, exits, skip, on_tables,
  on_procs, on_procs_only, asks, proc, set_proc, read_int, write_int, write_word, set_current,
  set_flag, current, incr_process_count, decr_process_count, decr_soft_block_count,
}
use jae_os.Scheduler.{insert_ready, on_ready}
use jae_os.Syscall.Pid.{pid_generator}

module _ (a : Arch) where
  -- `*statep`
  abbrev pub state_at : ℕ → K State
  state_at statep k =
      if statep == null then null_pointer else next (a.read_state k.machine.memory statep) k

  unfoldable pub create_process : ℕ → K ℕ
  unfolding pid_generator
  create_process statep = do
    child ← on_procs (alloc_pcb a.alloc_tmp)
    if child == null then pure 0xffff_ffff else do
      set_proc child λ m. record m {
        kernel_time = update m.kernel_time child 0;
        global_time = update m.global_time child 0;
      }
      s ← state_at statep
      set_proc child (λ m. record m { p_s = update m.p_s child s })
      parent ← current
      on_procs_only (insert_child parent child)
      x ← proc (λ m. m.pid) child
      y ← gets (λ k. k.counter)
      id ← asks (λ _. pid_generator x y)
      set_proc child (λ m. record m { pid = update m.pid child id })
      modify (λ k. record k { counter = (k.counter + 1) % 2 ^ 32 })
      insert_ready child
      incr_process_count
      proc (λ m. m.pid) child

  -- `sem` lies in the array `device_sem`.
  abbrev pub is_device_sem : ℕ → Bool
  is_device_sem sem = leb (device_sem_at a 0) sem && leb sem (device_sem_at a (a.max_devices - 1))

  -- What terminate_children and lookfor_progeny do to a process that waits for a semaphore: the
  -- value goes back unless it is a device's, and the process leaves the queue.
  unfoldable pub unblock : Ptr → K (Unit {0})
  unblock p = do
    s ← proc (λ m. m.p_cursem) p
    if s == null then skip else do
      weight ← proc (λ m. m.res_wait) p
      sem ← gets (λ k. k.tables.s_sem_add s)
      if is_device_sem sem
          then skip
          else do value ← read_int sem; write_int sem (sub_int value weight)
      on_tables (out_blocked p)
      decr_soft_block_count

  -- The loop of terminate_children is a call with the same process.
  unfoldable pub terminate_children : ℕ → Ptr → Ptr → K (Unit {0})
  unfolding unblock
  terminate_children zero p p_const k = no_fuel
  terminate_children (suc fuel) p p_const k =
      (do
        childless ← asks (λ t. empty_child p t.procs)
        if childless
            then (if p == p_const
                then skip
                else do unblock p; decr_process_count; on_procs_only (free_pcb p))
            else do
              child ← on_procs (remove_child p)
              terminate_children fuel child p_const
              terminate_children fuel p p_const)
        k

  -- The end of lookfor_progeny and of terminate_process for the process that they kill.
  unfoldable pub remove_process : Ptr → K (Unit {0})
  remove_process p = do
    decr_process_count
    on_procs (out_child p)
    on_ready (λ q. out_proc_q q p)
    on_procs_only (free_pcb p)

  -- The loops and calls on the way to a process: two for each process at most.
  abbrev pub tree_rounds : ℕ
  tree_rounds = 42

  unfoldable mutual
    unfolding terminate_children unblock remove_process

    -- The result is the new value of `*found`.
    pub lookfor_progeny : ℕ → Ptr → ℕ → Bool → K Bool
    lookfor_progeny zero parent pid found k = no_fuel
    lookfor_progeny (suc fuel) parent pid found k =
        (do
          id ← proc (λ m. m.pid) parent
          if id == pid
              then (do
                terminate_children rounds parent parent
                unblock parent
                remove_process parent
                pure true)
              else do
                header ← proc (λ m. m.p_children) parent
                if header == null then pure found else do
                  child ← asks (λ t. clist_head (children t.procs parent))
                  progeny_loop fuel parent child null pid found)
          k

    -- The clist_foreach loop of lookfor_progeny over the children of `parent`.
    pub progeny_loop : ℕ → Ptr → Ptr → Ptr → ℕ → Bool → K Bool
    progeny_loop zero parent child tmp pid found k = no_fuel
    progeny_loop (suc fuel) parent child tmp pid found k =
        (do
          header ← proc (λ m. m.p_children) parent
          if tmp == header then pure found else if found then pure found else do
            found ← lookfor_progeny fuel child pid found
            after ← proc (λ m. m.p_siblings) child
            progeny_loop fuel parent after child pid found)
          k

  unfoldable pub terminate_process : ℕ → K (Unit {0})
  unfolding lookfor_progeny terminate_children remove_process
  terminate_process pid = do
    p ← current
    own ← proc (λ m. m.pid) p
    if pid == 0 || pid == own
        then (do
          terminate_children rounds p p
          remove_process p
          set_current null
          set_flag load_next)
        else do found ← lookfor_progeny tree_rounds p pid false; if found then skip else exits panic

unfoldable pub getpid : K ℕ
getpid = do p ← current; proc (λ m. m.pid) p

unfoldable pub get_cputime : ℕ → ℕ → K (Unit {0})
get_cputime global user = do
  p ← current
  total ← proc (λ m. m.global_time) p
  write_word global total
  total ← proc (λ m. m.global_time) p
  kernel ← proc (λ m. m.kernel_time) p
  write_word user (sub_word total kernel)
