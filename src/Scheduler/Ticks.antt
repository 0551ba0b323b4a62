-- ===== src/Scheduler/Ticks.antt =====
-- The pseudo-clock and the interval timer in loadnext of source/scheduler.c.
use jae_os.Prelude.{
  ◌≡◌, refl, sym, subst, ◌∙◌, ◌-◌, inl, inr, ℕ, suc, Bool, Bool-cases, eq_cases, List, ◌∷◌, Ptr,
  null, NotIn, ==_ne, ◌==◌, if◌then◌else◌, ltb,
}
use jae_os.Prelude.Int.{sub_word}
use jae_os.Const.{sched_time_slice, sched_pseudo_clock}
use jae_os.Arch.{Arch}
use jae_os.Clist.Ring.{Ring-nonnull}
use jae_os.Pcb.Queue.{insert_proc_q-append, remove_proc_q-cons}
use jae_os.Kernel.{Kernel, get_tod_lo}
use jae_os.Kernel.Runs.{
  Proceeds, proceeds, Proceeds-bind, Proceeds-Leaves, Leaves, leaves, Leaves-mono, Proceeds-both,
  nonnull-Proceeds, nonnull-Leaves, from_run-Proceeds,
}
use jae_os.Scheduler.{put_ready, preempt, arm_timer, dispatch, loadnext}
use jae_os.Scheduler.Ready.{Ready, requeue, charged, preempt-requeue, arm_timer-Untouched}

-- The `n`-th reading of the clock finds the end of the pseudo-clock's period, which began at `began`,
-- nearer than a time slice.
abbrev pub is_due : ℕ → ℕ → Kernel → Bool
is_due began n k = ltb (sched_pseudo_clock - sched_time_slice) (sub_word (k.machine.clock n) began)

-- Where the period began at `began` and the `n`-th reading of the clock is the next: near the end of
-- the period the timer is set to what is left of it, a tick is announced and a new period begins; else
-- the timer is set to the time slice and `ticks` stays.
pub record Ticks (ticks began n : ℕ) (k k' : Kernel) : Type 0 where
  pub announced : k'.pseudoclockflag ≡ (if is_due began n k then 1 else ticks)
  pub began_at :
      k'.pseudo_start ≡ (if is_due began n k then k.machine.clock (suc (suc n)) else began)
  pub timer : k'.machine.timer ≡ (
      if is_due began n k
      then sub_word sched_pseudo_clock (sub_word (k.machine.clock (suc n)) began)
      else sched_time_slice)
  pub memory : k'.machine.memory ≡ k.machine.memory

-- The pseudo-clock, the timer and the memory are as they were.
pub record SamePace (k k' : Kernel) : Type 0 where
  pub ticks : k'.pseudoclockflag ≡ k.pseudoclockflag
  pub began : k'.pseudo_start ≡ k.pseudo_start
  pub timer : k'.machine.timer ≡ k.machine.timer
  pub memory : k'.machine.memory ≡ k.machine.memory

-- The clock is read once for a process that is preempted.
abbrev pub after_preempt : Ptr → ℕ → ℕ
after_preempt p n = if p == null then n else suc n

module _ (a : Arch) (k : Kernel) where
  preempt-Pace :
      (xs : List Ptr)
      → Ready k xs
      → NotIn k.current_process xs
      → Proceeds
          (λ _ k'.
            SamePace k k'
            × (k'.machine.clock ≡ k.machine.clock)
            × (k'.machine.reads ≡ after_preempt k.current_process k.machine.reads))
          (preempt a k)
  unfolding preempt get_tod_lo
  preempt-Pace xs ring out = elim (eq_cases k.current_process null) [
    | inl e ↦
        rw e (
          proceeds (record { ticks = refl; began = refl; timer = refl; memory = refl }, refl, refl))
    | inr ne ↦ rw (==_ne k.current_process null ne) (
        nonnull-Proceeds k.current_process ne _ _ (
          Proceeds-bind
            (from_run-Proceeds (λ r. put_ready r.0 r.1) (λ _. tt) (charged k)
              (insert_proc_q-append (charged k).tables.procs k.readyqueue xs ring k.current_process
                ne out))
            λ _ k' (_, _, _, e). rw e (
              proceeds
                (record { ticks = refl; began = refl; timer = refl; memory = refl }, refl, refl))))
  ]

  arm_timer-Ticks :
      Proceeds (λ _ k'. Ticks k.pseudoclockflag k.pseudo_start k.machine.reads k k') (arm_timer a k)
  unfolding arm_timer get_tod_lo
  arm_timer-Ticks = elim (Bool-cases (is_due k.pseudo_start k.machine.reads k)) [
    | inl e ↦ rw e (
        proceeds
          record { announced = rw e refl; began_at = rw e refl; timer = rw e refl; memory = refl })
    | inr e ↦ rw e (
        proceeds
          record { announced = rw e refl; began_at = rw e refl; timer = rw e refl; memory = refl })
  ]

  dispatch-Pace :
      (x : Ptr) (ys : List Ptr) → Ready k (x ∷ ys) → Leaves (λ _ k'. SamePace k k') (dispatch a k)
  unfolding dispatch get_tod_lo
  dispatch-Pace x ys ring =
      let ne = (Ring-nonnull _ (x ∷ ys) ring).0 in
      Proceeds-Leaves
        (from_run-Proceeds (λ r. put_ready r.1 r.2) (λ r. r.0) k
          (remove_proc_q-cons k.tables.procs k.readyqueue x ys ring))
        λ p k' ((r, q, m), (is, _, _), b, e).
          rw (b, is, e, ==_ne x null ne)
            (nonnull-Leaves x ne _ _ (
              nonnull-Leaves x ne _ _
                (leaves record { ticks = refl; began = refl; timer = refl; memory = refl })))

-- The three parts of loadnext, one after the other.
Ticks-parts :
    (k k1 k2 k3 : Kernel) (n : ℕ)
    → SamePace k k1
    → k1.machine.clock ≡ k.machine.clock
    → k1.machine.reads ≡ n
    → Ticks k1.pseudoclockflag k1.pseudo_start k1.machine.reads k1 k2
    → SamePace k2 k3
    → Ticks k.pseudoclockflag k.pseudo_start n k k3
Ticks-parts k k1 k2 k3 n before clock reads t after = record {
  announced =
      rw (after.ticks, sym before.ticks, sym before.began, sym clock, sym reads) t.announced;
  began_at = rw (after.began, sym before.began, sym clock, sym reads) t.began_at;
  timer = rw (after.timer, sym before.began, sym clock, sym reads) t.timer;
  memory = after.memory ∙ t.memory ∙ before.memory;
}

pub loadnext-Ticks :
    (a : Arch) (k : Kernel) (xs : List Ptr) (x : Ptr) (ys : List Ptr)
    → Ready k xs
    → NotIn k.current_process xs
    → requeue k.current_process xs ≡ x ∷ ys
    → Leaves
        (λ _ k'.
          Ticks k.pseudoclockflag k.pseudo_start
            (after_preempt k.current_process k.machine.reads)
            k
            k')
        (loadnext a k)
unfolding loadnext
loadnext-Ticks a k xs x ys ring out turn =
    Proceeds-Leaves (Proceeds-both (preempt-requeue a k xs ring out) (preempt-Pace a k xs ring out))
      λ _ k1 ((ring1, _, _, _), (before, clock, reads)).
        Proceeds-Leaves (Proceeds-both (arm_timer-Untouched a k1) (arm_timer-Ticks a k1))
          λ _ k2 (same, t).
            let ring2 : Ready k2 (x ∷ ys) =
              rw (same.tables, same.header) (subst (Ready k1) turn ring1) in
            Leaves-mono (dispatch-Pace a k2 x ys ring2)
              λ e k3 after. Ticks-parts k k1 k2 k3 _ before clock reads t after
