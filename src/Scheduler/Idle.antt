-- ===== src/Scheduler/Idle.antt =====
-- loadnext of source/scheduler.c where there is no process to load.
use jae_os.Prelude.{◌≡◌, refl, ℕ, [], Ptr, null, subst, Returns, returns, ap, ◌∙◌}
use jae_os.Prelude.Int.{pos}
use jae_os.Arch.{Arch}
use jae_os.Kernel.{Kernel, get_tod_lo}
use jae_os.Kernel.Runs.{Leaves, Leaves-mono, Leaves-bind, from_run-Proceeds, Proceeds-Leaves}
use jae_os.Pcb.{Procs, remove_proc_q}
use jae_os.Pcb.Queue.{remove_proc_q-nil}
use jae_os.Scheduler.{put_ready, dispatch, loadnext}
use jae_os.Scheduler.Deadlock.{stop, deadlock_detection-Leaves}
use jae_os.Scheduler.Ready.{Ready, requeue, preempt-requeue, arm_timer-Untouched}

empty :
    (k : Kernel)
    → Ready k []
    → Returns (λ r. r.0 ≡ null) (remove_proc_q k.readyqueue k.tables.procs)
empty k ring = rw (remove_proc_q-nil k.tables.procs k.readyqueue ring) (returns refl)

dispatch-idle :
    (a : Arch) (k : Kernel) (processes blocked : ℕ)
    → Ready k []
    → k.process_count ≡ pos processes
    → k.soft_block_count ≡ pos blocked
    → Leaves (λ e k'. e ≡ stop processes blocked) (dispatch a k)
unfolding dispatch get_tod_lo
dispatch-idle a k processes blocked ring n b =
    Proceeds-Leaves
      (from_run-Proceeds {A = Ptr × Ptr × Procs} {P = λ r. r.0 ≡ null} (λ r. put_ready r.1 r.2)
        (λ r. r.0) k (empty k ring))
      λ p k' (r, is, e, set).
        rw (e, is, set)
          (Leaves-bind _ (
            Leaves-mono
              (deadlock_detection-Leaves a (record (put_ready r.1 r.2 k) { current_process = null })
                processes blocked n b)
              λ e k' (is, _). is))

-- Where no process is current and none is ready, loadnext leaves the nucleus: it halts the machine
-- if there is no process at all, panics if there are processes and soft_block_count, the number of
-- those that wait for a semaphore, is 0, and else waits for an interrupt. It is supposed that the
-- two counts are not negative.
pub loadnext-idle :
    (a : Arch) (k : Kernel) (processes blocked : ℕ)
    → Ready k []
    → k.current_process ≡ null
    → k.process_count ≡ pos processes
    → k.soft_block_count ≡ pos blocked
    → Leaves (λ e k'. e ≡ stop processes blocked) (loadnext a k)
unfolding loadnext
loadnext-idle a k processes blocked ring nobody n b =
    Proceeds-Leaves (preempt-requeue a k [] ring tt) λ _ k1 (ring1, queued, _, _).
      Proceeds-Leaves (arm_timer-Untouched a k1) λ _ k2 same.
        dispatch-idle a k2 processes blocked
          (rw (same.tables, same.header) (subst (Ready k1) (ap (λ p. requeue p []) nobody) ring1))
          (same.processes ∙ queued.processes ∙ n) (same.blocked ∙ queued.blocked ∙ b)
