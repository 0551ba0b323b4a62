-- ===== src/Scheduler/Dispatch.antt =====
-- loadnext of source/scheduler.c: the ready queue is served in turns.
use jae_os.Prelude.{
  ◌≡◌, refl, subst, ap, ◌∙◌, ◌≢◌, inl, inr, eq_cases, suc, All-append, List, [], ◌∷◌, Ptr, null,
  NotIn, ==_ne, update, update_self, update_ne,
}
use jae_os.Arch.{Arch}
use jae_os.Clist.Ring.{Ring, Ring-nonnull}
use jae_os.Pcb.{Procs, queue}
use jae_os.Pcb.Queue.{LinksOnly, remove_proc_q-cons}
use jae_os.Asl.{Tables}
use jae_os.Kernel.{Kernel, Exit, ldst, get_tod_lo}
use jae_os.Kernel.Runs.{
  Leaves, leaves, Proceeds-Leaves, Leaves-mono, nonnull-Leaves, from_run-Proceeds,
}
use jae_os.Scheduler.{put_ready, dispatch, loadnext}
use jae_os.Scheduler.Ready.{
  Ready, requeue, Queued, Untouched, enable, preempt-requeue, arm_timer-Untouched,
}

-- The next process runs: it was the first one, and interrupts are enabled in its state.
pub record Dispatched (a : Arch) (k : Kernel) (x : Ptr) (ys : List Ptr) (e : Exit) (k' : Kernel)
    : Type 0 where
  pub exit : e ≡ ldst (k'.tables.procs.p_s x)
  pub enabled : k'.tables.procs.p_s x ≡ enable a (k.tables.procs.p_s x)
  pub others : (q : Ptr) → q ≢ x → k'.tables.procs.p_s q ≡ k.tables.procs.p_s q
  pub current : k'.current_process ≡ x
  pub ready : Ready k' ys

-- The end of loadnext, when `x` has been taken from the queue.
abbrev start_of : Arch → Ptr → Ptr → Procs → Kernel → Kernel
start_of a x q m k = record k {
  tables = record k.tables { procs = record m { p_s = update m.p_s x (enable a (m.p_s x)) } };
  readyqueue = q;
  current_process = x;
  start_tod = k.machine.clock k.machine.reads;
  machine = record k.machine { reads = suc k.machine.reads };
}

started :
    (a : Arch) (k : Kernel) (x : Ptr) (ys : List Ptr) (q : Ptr) (m : Procs)
    → LinksOnly (x ∷ ys) k.tables.procs m
    → Ring (queue m q) ys
    → Dispatched a k x ys (ldst ((start_of a x q m k).tables.procs.p_s x)) (start_of a x q m k)
      × Queued (x ∷ ys) k (start_of a x q m k)
started a k x ys q m only ring =
    let saved : m.p_s ≡ k.tables.procs.p_s = ap (λ ps. ps.p_s) only.rest in
    (
      record {
        exit = refl;
        enabled = update_self m.p_s x _ ∙ ap (λ f. enable a (f x)) saved;
        others = λ z ne. update_ne m.p_s x z _ ne ∙ ap (λ f. f z) saved;
        current = refl;
        ready = ring;
      },
      record {
        tables =
            ap
              (λ ps. record k.tables {
                procs = record ps {
                  p_s = update m.p_s x (enable a (m.p_s x));
                  global_time = m.global_time;
                };
              })
              only.rest;
        links = only.same;
        processes = refl;
        blocked = refl;
      },
    )

dispatch-head :
    (a : Arch) (k : Kernel) (x : Ptr) (ys : List Ptr)
    → Ready k (x ∷ ys)
    → Leaves (λ e k'. Dispatched a k x ys e k' × Queued (x ∷ ys) k k') (dispatch a k)
unfolding dispatch get_tod_lo
dispatch-head a k x ys ring =
    let ne = (Ring-nonnull _ (x ∷ ys) ring).0 in
    Proceeds-Leaves
      (from_run-Proceeds (λ r. put_ready r.1 r.2) (λ r. r.0) k
        (remove_proc_q-cons k.tables.procs k.readyqueue x ys ring))
      λ p k' ((r, q, m), (is, ring', only), b, e).
        rw (b, is, e, ==_ne x null ne)
          (nonnull-Leaves x ne _ _
            (nonnull-Leaves x ne _ _ (leaves (started a k x ys q m only ring'))))

requeue-NotIn : (p : Ptr) (xs : List Ptr) (q : Ptr) → NotIn q (p ∷ xs) → NotIn q (requeue p xs)
requeue-NotIn p xs q out = elim (eq_cases p null) [
  | inl e ↦ rw e out.1
  | inr ne ↦ rw (==_ne p null ne) (All-append _ xs (p ∷ []) out.1 (out.0, tt))
]

-- The tables with the queue links, times and states of `m`.
abbrev adopt : Procs → Tables → Tables
adopt m t = record t {
  procs = record t.procs { p_list = m.p_list; global_time = m.global_time; p_s = m.p_s };
}

pub Queued-trans :
    (xs zs : List Ptr) (k k1 k2 k3 : Kernel)
    → ((q : Ptr) → NotIn q xs → NotIn q zs)
    → Queued xs k k1
    → Untouched k1 k2
    → Queued zs k2 k3
    → Queued xs k k3
Queued-trans xs zs k k1 k2 k3 fewer before between after = record {
  tables = after.tables ∙ ap (adopt k3.tables.procs) (between.tables ∙ before.tables);
  links = λ q out.
      after.links q (fewer q out) ∙ ap (λ t. t.procs.p_list q) between.tables ∙ before.links q out;
  processes = after.processes ∙ between.processes ∙ before.processes;
  blocked = after.blocked ∙ between.blocked ∙ before.blocked;
}

-- The state of a process is found as it was before the first two parts of loadnext.
pub Dispatched-before :
    (a : Arch) (k k' : Kernel) (x : Ptr) (ys : List Ptr) (e : Exit) (out : Kernel)
    → k'.tables.procs.p_s ≡ k.tables.procs.p_s
    → Dispatched a k' x ys e out
    → Dispatched a k x ys e out
Dispatched-before a k k' x ys e out same d = record {
  exit = d.exit;
  enabled = d.enabled ∙ ap (λ f. enable a (f x)) same;
  others = λ q ne. d.others q ne ∙ ap (λ f. f q) same;
  current = d.current;
  ready = d.ready;
}

-- Where the current process is not in the ready queue and some process can run, loadnext takes
-- turns: the current process, if there is one, goes behind the ready ones, and the first of these
-- leaves the queue and runs, with its saved state and the interrupts enabled. Nothing else changes
-- in the tables but queue links of these processes, times and the loaded state.
pub loadnext-round_robin :
    (a : Arch) (k : Kernel) (xs : List Ptr) (x : Ptr) (ys : List Ptr)
    → Ready k xs
    → NotIn k.current_process xs
    → requeue k.current_process xs ≡ x ∷ ys
    → Leaves
        (λ e k'. Dispatched a k x ys e k' × Queued (k.current_process ∷ xs) k k')
        (loadnext a k)
unfolding loadnext
loadnext-round_robin a k xs x ys ring out turn =
    Proceeds-Leaves (preempt-requeue a k xs ring out) λ _ k1 (ring1, queued1, saved1, _).
      Proceeds-Leaves (arm_timer-Untouched a k1) λ _ k2 same.
        let ring2 : Ready k2 (x ∷ ys) =
          rw (same.tables, same.header) (subst (Ready k1) turn ring1) in
        Leaves-mono (dispatch-head a k2 x ys ring2) λ e k3 (d, queued3). (
          Dispatched-before a k k2 x ys e k3 (ap (λ t. t.procs.p_s) same.tables ∙ saved1) d,
          Queued-trans _ (x ∷ ys) k k1 k2 k3
              (λ q h. subst (NotIn q) turn (requeue-NotIn k.current_process xs q h)) queued1 same
              queued3,
        )
