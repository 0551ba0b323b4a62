-- ===== src/Initial/Start.antt =====
-- main of source/initial.c: from the loaded program to the first process.
use Prim.Native.Nat.{bit_or}
use jae_os.Prelude.{
  ℕ, ◌==◌, suc, sym, subst, All, All-map, arith, false, ◌≡◌, refl, ◌≢◌, ◌∙◌, ap, ◌+◌, ◌*◌, ◌%◌, ◌^◌,
  List, [], ◌∷◌, Ptr, null, update,
}
use jae_os.Prelude.Int.{sub_word, pos, ◌+ℤ◌}
use jae_os.Const.{State, max_proc, start, sched_time_slice}
use jae_os.Arch.{Arch}
use jae_os.Clist.Ring.{vacant, Ring-frame}
use jae_os.Pcb.{Procs, queue, init_pcbs, pcb_at, zero_state}
use jae_os.Pcb.Tree.{IsChildren}
use jae_os.Pcb.Alloc.{Free, pcbs_from, init_pcbs-Free, alloc_pcb-cons}
use jae_os.Asl.{Tables, init_asl}
use jae_os.Asl.View.{IsAsl}
use jae_os.Asl.Init.{semds_from, init_asl-IsAsl}
use jae_os.Kernel.{Kernel, Exit, ldst, set_procs, get_tod_lo}
use jae_os.Kernel.Runs.{Leaves, Leaves-mono, Proceeds-Leaves, from_run-Proceeds}
use jae_os.Scheduler.{scheduler}
use jae_os.Scheduler.Ready.{Ready, requeue, Queued, enable, insert_ready-append}
use jae_os.Scheduler.Dispatch.{Dispatched, loadnext-round_robin}
use jae_os.Initial.{first_state, with_areas, initialised, main}

-- The program as it has been loaded: the values of the initialised variables.
abbrev pub loaded : Kernel → Kernel
loaded k = record k { readyqueue = null; counter = 0 }

pub differ : (a b : ℕ) → (a == b) ≡ false → a ≢ b
differ a b e d = ground arith

-- The test process starts in kernel mode, without virtual memory, with the timer and the interrupts
-- enabled and its stack below the frame at the top of the memory.
abbrev pub boot_state : Arch → State
boot_state a = record zero_state {
  pc = a.test;
  sp = sub_word a.ram_top a.frame_size;
  cp15_control = a.cp15_disable_vm 0;
  cpsr =
      a.status_all_int_enable
        (bit_or (a.status_enable_timer (a.status_all_int_enable a.status_null)) a.status_sys_mode);
}

pub record Started (a : Arch) (e : Exit) (k : Kernel) : Type 0 where
  pub exit : e ≡ ldst (boot_state a)
  pub current : k.current_process ≡ pcb_at 0
  pub ready : Ready k []
  pub free : Free k.tables.procs (pcbs_from 1 19)
  pub childless : IsChildren k.tables.procs (pcb_at 0) []
  pub semaphores : IsAsl k.tables [] (semds_from 0 max_proc)
  pub processes : k.process_count ≡ pos 1
  pub blocked : k.soft_block_count ≡ pos 0

-- main when the first process is complete, with the descriptors `m`, and when it calls loadnext.
abbrev pub prepared : Arch → Procs → Kernel → Kernel
prepared a m k = record k {
  tables = record k.tables {
    procs = record m {
      pid = update m.pid 1 ((m.pid 1 * 10 + 0) % 2 ^ 32);
      p_s = update m.p_s 1 (first_state a (m.p_s 1));
    };
  };
  process_count = pos 0 +ℤ pos 1;
  counter = 1;
}

abbrev pub at_start : Arch → Kernel → Kernel
at_start a k = record k {
  flag = start;
  pseudoclockflag = 0;
  kernel_start = 0;
  pseudo_start = k.machine.clock k.machine.reads;
  machine = record k.machine {
    status = a.status_all_int_disable k.machine.status;
    timer = sched_time_slice;
    reads = suc k.machine.reads;
  };
}

-- With no active semaphore the invariant of the semaphore list does not rest on the processes.
IsAsl-procs :
    (t : Tables) (m : Procs) (fs : List Ptr) → IsAsl t [] fs → IsAsl (record t { procs = m }) [] fs
IsAsl-procs t m fs a = record {
  table = record {
    active = a.table.active;
    free = a.table.free;
    apart = a.table.apart;
    holds = tt;
    sorted = tt;
    bounded = a.table.bounded;
  };
  busy = tt;
}

abbrev with_procs : Procs → Tables → Tables
with_procs m t = record t { procs = m }

others : All (λ z. (0 ≢ z) × (1 ≢ z)) (pcbs_from 1 19)
others = omega arith

module _ (a : Arch) (k : Kernel) (m : Procs) (free : Free m (pcbs_from 1 19))
    (fresh : m.p_s 1 ≡ zero_state) (no_children : m.p_children 1 ≡ null) (k2 : Kernel)
    (queued : Queued (1 ∷ []) (prepared a m (initialised a (with_areas a (loaded k)))) k2)
    (saved : k2.tables.procs.p_s ≡ update m.p_s 1 (first_state a (m.p_s 1)))
    (nobody : k2.current_process ≡ null) (e : Exit) (k4 : Kernel)
    (d : Dispatched a (at_start a k2) 1 [] e k4)
    (q : Queued (k2.current_process ∷ 1 ∷ []) (at_start a k2) k4) where
  links : (z : Ptr) → (0 ≢ z) × (1 ≢ z) → k4.tables.procs.p_list z ≡ m.p_list z
  links z (z0, z1) =
      q.links z (subst (λ c. c ≢ z) (sym nobody) z0, (z1, tt)) ∙ queued.links z (z1, tt)

  Free-left : Free k4.tables.procs (pcbs_from 1 19)
  Free-left =
      Ring-frame (queue m m.pcb_free) (queue k4.tables.procs k4.tables.procs.pcb_free)
        (pcbs_from 1 19)
        (ap (λ t. t.procs.pcb_free) q.tables ∙ ap (λ t. t.procs.pcb_free) queued.tables)
        (All-map _ _ (pcbs_from 1 19) links others) free

  no_semaphore : IsAsl k4.tables [] (semds_from 0 max_proc)
  unfolding init_asl
  no_semaphore =
      let t = init_asl (record k.tables { procs = init_pcbs k.tables.procs }) in
      subst (λ u. IsAsl u [] (semds_from 0 max_proc))
        (sym (
          ap (with_procs k4.tables.procs) q.tables ∙ ap (with_procs k4.tables.procs) queued.tables))
        (IsAsl-procs t k4.tables.procs (semds_from 0 max_proc)
          (init_asl-IsAsl (record k.tables { procs = init_pcbs k.tables.procs })))

  Started-first : Started a e k4
  unfolding ◌+ℤ◌ update
  Started-first = record {
    exit =
        d.exit
        ∙ ap ldst (
            d.enabled
            ∙ ap (λ f. enable a (f 1)) saved
            ∙ ap (λ s. enable a (first_state a s)) fresh);
    current = d.current;
    ready = d.ready;
    free = Free-left;
    childless = record {
      ring =
          vacant
            (ap (λ t. t.procs.p_children 1) q.tables
              ∙ ap (λ t. t.procs.p_children 1) queued.tables
              ∙ no_children)
            refl;
      parents = tt;
    };
    semaphores = no_semaphore;
    processes = q.processes ∙ queued.processes;
    blocked = q.blocked ∙ queued.blocked;
  }

-- From the loaded program, main leaves the nucleus by loading the first process: its state is the
-- one that main prepares, with the interrupts enabled; it is the only process and the current one
-- and has no children, the ready queue is empty, the other nineteen descriptors are free in order,
-- and the semaphore list satisfies its invariant with no active semaphore.
pub main-Started : (a : Arch) (k : Kernel) → Leaves (Started a) (main a (loaded k))
unfolding main scheduler init_asl get_tod_lo
main-Started a k =
    let k1 = initialised a (with_areas a (loaded k)) in
    Proceeds-Leaves
      (from_run-Proceeds (λ r. set_procs r.1) (λ r. r.0) k1
        (alloc_pcb-cons a.alloc_tmp k1.tables.procs (pcb_at 0) (pcbs_from 1 19)
          (init_pcbs-Free k.tables.procs)))
      λ p k' (r, (is, free, fresh, _, _, _), b, e).
        rw (b, is, e)
          (Proceeds-Leaves
            (insert_ready-append 1 (prepared a r.1 k1) [] (vacant refl refl) (differ 1 0 refl) tt)
            λ _ k2 (ring, queued, saved, nobody).
              Leaves-mono
                (loadnext-round_robin a (at_start a k2) (1 ∷ []) 1 [] ring
                  (subst (λ c. 1 ≢ c) (sym nobody) (differ 1 0 refl), tt)
                  (ap (λ c. requeue c (1 ∷ [])) nobody))
                λ e k4 (d, q).
                  Started-first a k r.1 free fresh.state fresh.no_children k2 queued saved nobody e
                    k4 d q)
