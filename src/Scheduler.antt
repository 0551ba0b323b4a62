-- ===== src/Scheduler.antt =====
-- source/scheduler.c: the scheduler's modes, the choice of the next process, and what it does when
-- no process is ready.
pub mod Deadlock
pub mod Ready
pub mod Dispatch
pub mod Idle
pub mod Ticks
pub mod Modes
use jae_os.Prelude.{◌==◌, ltb, ◌&&◌, ◌-◌, if◌then◌else◌, Ptr, null, update, Run}
use jae_os.Prelude.Int.{pos, ltb_ℤ, eqb_ℤ, add_word, sub_word}
use jae_os.Const.{start, reset, load_next, load_current, sched_time_slice, sched_pseudo_clock}
use jae_os.Arch.{Arch}
use jae_os.Pcb.{Procs, insert_proc_q, remove_proc_q}
use jae_os.Kernel.{
  Kernel, K, from_run, set_procs, ◌>>=◌, ◌>>◌, ldst, halt, panic, wait, gets, modify, exits, skip,
  proc, set_proc, set_state, get_tod_lo, get_status, set_status, set_timer, set_current, current,
}

-- The kernel with a new header of the ready queue, and new descriptors.
abbrev pub put_ready : Ptr → Procs → Kernel → Kernel
put_ready q m k = record (set_procs m k) { readyqueue = q }

-- `insertProcQ(&readyqueue, p)`, and a function that takes a process out of that queue.
abbrev pub insert_ready : Ptr → K (Unit {0})
insert_ready p k =
    from_run (λ r. put_ready r.0 r.1) (λ _. tt) (insert_proc_q k.readyqueue p k.tables.procs) k

abbrev pub on_ready : (Ptr → Procs → Run (Ptr × Ptr × Procs)) → K Ptr
on_ready f k = from_run (λ r. put_ready r.1 r.2) (λ r. r.0) (f k.readyqueue k.tables.procs) k

module _ (a : Arch) where
  unfoldable pub deadlock_detection : K (Unit {0})
  deadlock_detection = do
    processes ← gets (λ k. k.process_count)
    blocked ← gets (λ k. k.soft_block_count)
    if eqb_ℤ processes (pos 0)
        then exits halt
        else if eqb_ℤ blocked (pos 0) && ltb_ℤ (pos 0) processes
        then exits panic
        else if ltb_ℤ (pos 0) blocked && ltb_ℤ (pos 0) processes
        then (do
          set_timer sched_time_slice
          s ← get_status
          set_status (a.status_all_int_enable s)
          exits wait)
        else skip

  -- The first part of loadnext: the current process goes back to the ready queue.
  unfoldable pub preempt : K (Unit {0})
  unfolding get_tod_lo
  preempt = do
    p ← current
    if p == null then skip else do
      now ← get_tod_lo
      began ← gets (λ k. k.start_tod)
      set_proc p λ m. record m {
        global_time = update m.global_time p (add_word (m.global_time p) (sub_word now began));
      }
      insert_ready p
      set_current null

  -- The second part: the interval timer is set to the time slice, or to what is left of the
  -- pseudo-clock's period.
  unfoldable pub arm_timer : K (Unit {0})
  unfolding get_tod_lo
  arm_timer = do
    now ← get_tod_lo
    tick ← gets (λ k. k.pseudo_start)
    if ltb (sched_pseudo_clock - sched_time_slice) (sub_word now tick)
        then (do
          now ← get_tod_lo
          set_timer (sub_word sched_pseudo_clock (sub_word now tick))
          modify (λ k. record k { pseudoclockflag = 1 })
          now ← get_tod_lo
          modify (λ k. record k { pseudo_start = now }))
        else set_timer sched_time_slice

  -- The last part: the next process is loaded with all interrupts enabled.
  unfoldable pub dispatch : K (Unit {0})
  unfolding deadlock_detection get_tod_lo
  dispatch = do
    p ← on_ready remove_proc_q
    set_current p
    if p == null then deadlock_detection else skip
    now ← get_tod_lo
    modify (λ k. record k { start_tod = now })
    p ← current
    set_state p (λ s. record s { cpsr = a.status_all_int_enable s.cpsr })
    s ← proc (λ m. m.p_s) p
    exits (ldst s)

  unfoldable pub loadnext : K (Unit {0})
  unfolding preempt arm_timer dispatch
  loadnext = do preempt; arm_timer; dispatch

  unfoldable pub scheduler : K (Unit {0})
  unfolding loadnext get_tod_lo
  scheduler = do
    s ← get_status
    set_status (a.status_all_int_disable s)
    f ← gets (λ k. k.flag)
    if f == start
        then (do
          set_timer sched_time_slice
          modify (λ k. record k { pseudoclockflag = 0 })
          now ← get_tod_lo
          modify (λ k. record k { pseudo_start = now })
          loadnext)
        else if f == reset
        then (do
          modify (λ k. record k { pseudoclockflag = 0 })
          now ← get_tod_lo
          modify (λ k. record k { pseudo_start = now })
          loadnext)
        else if f == load_next
        then loadnext
        else if f == load_current
        then (do
          p ← current
          set_state p (λ s. record s { cpsr = a.status_all_int_enable s.cpsr })
          s ← proc (λ m. m.p_s) p
          exits (ldst s))
        else skip
