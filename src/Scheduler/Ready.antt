-- ===== src/Scheduler/Ready.antt =====
-- The ready queue in source/scheduler.c: the first two parts of loadnext.
use jae_os.Prelude.{
  ◌≡◌, refl, ap, ◌∙◌, ◌≢◌, inl, inr, Bool, Bool-cases, eq_cases, suc, List, [], ◌∷◌, ◌++◌, Ptr,
  null, NotIn, ==_ne, ◌==◌, if◌then◌else◌, ltb, ◌-◌, update,
}
use jae_os.Prelude.Int.{add_word, sub_word}
use jae_os.Const.{State, sched_time_slice, sched_pseudo_clock}
use jae_os.Arch.{Arch}
use jae_os.Clist.Ring.{Ring}
use jae_os.Pcb.{Procs, queue}
use jae_os.Pcb.Queue.{LinksOnly, insert_proc_q-append}
use jae_os.Kernel.{Kernel, set_procs, get_tod_lo}
use jae_os.Kernel.Runs.{
  Proceeds, proceeds, Proceeds-bind, Proceeds-mono, nonnull-Proceeds, from_run-Proceeds,
}
use jae_os.Scheduler.{put_ready, insert_ready, preempt, arm_timer}

-- The processes of the ready queue.
abbrev pub Ready : Kernel → List Ptr → Type 0
Ready k = Ring (queue k.tables.procs k.readyqueue)

-- The ready processes when the current one, if any, has gone back to the queue.
abbrev pub requeue : Ptr → List Ptr → List Ptr
requeue p xs = if p == null then xs else xs ++ p ∷ []

-- The tables differ at most in the queue links of `xs`, in the times and in the saved states.
pub record Queued (xs : List Ptr) (k k' : Kernel) : Type 0 where
  pub tables : k'.tables ≡ record k.tables {
    procs = record k.tables.procs {
      p_list = k'.tables.procs.p_list;
      global_time = k'.tables.procs.global_time;
      p_s = k'.tables.procs.p_s;
    };
  }
  pub links : (q : Ptr) → NotIn q xs → k'.tables.procs.p_list q ≡ k.tables.procs.p_list q
  pub processes : k'.process_count ≡ k.process_count
  pub blocked : k'.soft_block_count ≡ k.soft_block_count

-- A change of the queue links only.
relinked :
    (xs : List Ptr) (k : Kernel) (q : Ptr) (m : Procs)
    → LinksOnly xs k.tables.procs m
    → Queued xs k (put_ready q m k)
relinked xs k q m only = record {
  tables =
      ap (λ ps. record k.tables { procs = ps })
        (only.rest ∙ rw (ap (λ ps. ps.global_time) only.rest, ap (λ ps. ps.p_s) only.rest));
  links = only.same;
  processes = refl;
  blocked = refl;
}

pub same_Queued : (xs : List Ptr) (k : Kernel) → Queued xs k k
same_Queued xs k = record { tables = refl; links = λ q _. refl; processes = refl; blocked = refl }

-- After the first statement of loadnext: the current process's time has been brought up to date.
abbrev pub charged : Kernel → Kernel
charged k =
    let m = k.tables.procs in
    let p = k.current_process in
    let now = k.machine.clock k.machine.reads in
    set_procs
      (record m {
        global_time =
            update m.global_time p (add_word (m.global_time p) (sub_word now k.start_tod));
      })
      (record k { machine = record k.machine { reads = suc k.machine.reads } })

pub insert_ready-append :
    (p : Ptr) (k : Kernel) (xs : List Ptr)
    → Ready k xs
    → p ≢ null
    → NotIn p xs
    → Proceeds
        (λ _ k'.
          Ready k' (xs ++ p ∷ [])
          × Queued (p ∷ xs) k k'
          × (k'.tables.procs.p_s ≡ k.tables.procs.p_s)
          × (k'.current_process ≡ k.current_process))
        (insert_ready p k)
insert_ready-append p k xs ring ne out =
    Proceeds-mono
      (from_run-Proceeds (λ r. put_ready r.0 r.1) (λ _. tt) k
        (insert_proc_q-append k.tables.procs k.readyqueue xs ring p ne out))
      λ _ k' ((q, m), (ring, only), _, e).
        rw e (ring, relinked (p ∷ xs) k q m only, ap (λ ps. ps.p_s) only.rest, refl)

charged-Queued :
    (xs : List Ptr) (k k' : Kernel)
    → Queued xs (charged k) k'
    → Queued xs k (record k' { current_process = null })
charged-Queued xs k k' q = record {
  tables = q.tables;
  links = q.links;
  processes = q.processes;
  blocked = q.blocked;
}

abbrev pub enable : Arch → State → State
enable a s = record s { cpsr = a.status_all_int_enable s.cpsr }

-- What loadnext does to the current process.
pub preempt-requeue :
    (a : Arch) (k : Kernel) (xs : List Ptr)
    → Ready k xs
    → NotIn k.current_process xs
    → Proceeds
        (λ _ k'.
          Ready k' (requeue k.current_process xs)
          × Queued (k.current_process ∷ xs) k k'
          × (k'.tables.procs.p_s ≡ k.tables.procs.p_s)
          × (k'.current_process ≡ null))
        (preempt a k)
unfolding preempt get_tod_lo
preempt-requeue a k xs ring out = elim (eq_cases k.current_process null) [
  | inl e ↦
      rw e
        (proceeds (ring, same_Queued (null ∷ xs) (record k { current_process = null }), refl, refl))
  | inr ne ↦ rw (==_ne k.current_process null ne) (
      nonnull-Proceeds k.current_process ne _ _ (
        Proceeds-bind (insert_ready-append k.current_process (charged k) xs ring ne out)
          λ _ k' (ring', queued, saved, _).
            proceeds (ring', charged-Queued _ k k' queued, saved, refl)))
]

-- Neither the tables nor the ready queue nor the counts have changed.
pub record Untouched (k k' : Kernel) : Type 0 where
  pub tables : k'.tables ≡ k.tables
  pub header : k'.readyqueue ≡ k.readyqueue
  pub processes : k'.process_count ≡ k.process_count
  pub blocked : k'.soft_block_count ≡ k.soft_block_count

-- The timer and the pseudo-clock concern no process.
pub arm_timer-Untouched :
    (a : Arch) (k : Kernel) → Proceeds (λ _ k'. Untouched k k') (arm_timer a k)
unfolding arm_timer get_tod_lo
arm_timer-Untouched a k = elim (Bool-cases (due k)) [
  | inl e ↦
      rw e (proceeds record { tables = refl; header = refl; processes = refl; blocked = refl })
  | inr e ↦
      rw e (proceeds record { tables = refl; header = refl; processes = refl; blocked = refl })
]
  where
    due : Kernel → Bool
    due k =
        ltb (sched_pseudo_clock - sched_time_slice)
          (sub_word (k.machine.clock k.machine.reads) k.pseudo_start)
