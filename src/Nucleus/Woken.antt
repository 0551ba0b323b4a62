-- ===== src/Nucleus/Woken.antt =====
-- A V operation of source/syscall.c keeps each process in its place.
use jae_os.Prelude.{
  ◌≤◌, ◌≡◌, ◌≢◌, ap, sym, subst, ℕ, List, ◌++◌, Ptr, null, All, All-both, All-append, All-map,
  NotIn,
}
use jae_os.Prelude.Int.{ℤ}
use jae_os.Const.{max_proc}
use jae_os.Pcb.{Procs}
use jae_os.Pcb.Queue.{Apart, Apart-sym}
use jae_os.Asl.View.{Entry, Holds}
use jae_os.Asl.Spec.{view}
use jae_os.Asl.Waiting.{
  waiting_for, waiting_for-All, keep_waiting, AllQueues, AllQueues-view, view-AllQueues,
  keep_waiting-AllQueues,
}
use jae_os.Kernel.{Kernel}
use jae_os.Kernel.Runs.{Proceeds, Proceeds-mono}
use jae_os.Syscall.Semaphore.{verhogen}
use jae_os.Syscall.Semaphore.Serve.{served-All}
use jae_os.Syscall.Semaphore.Wakes.{Woke, verhogen-Woke}
use jae_os.Nucleus.{InPlace, Spare, Sound}
use jae_os.Nucleus.Pool.{Spare-frame}
use jae_os.Nucleus.Stops.{set_value-InPlace}

module _ (key : ℕ) (k k' : Kernel) (es : List Entry) (fs xs free woken left : List Ptr)
    (i : InPlace k es fs xs free) (done : Woke key (view es) xs woken left k k')
    (from : (P : Ptr → Type 0) → All P (waiting_for key (view es)) → All P woken × All P left) where
  -- Nobody who waited is free.
  served_Apart : Apart free woken × Apart free left
  served_Apart =
      from (λ w. NotIn w free)
        (waiting_for-All (Apart free) key es tt
          (All-map _ _ es (λ f o. Apart-sym f.waiting free o) i.spare.not_waiting))

  Woke-Spare :
      (es' : List Entry)
      → view es' ≡ keep_waiting key left (view es)
      → Spare k' es' (xs ++ woken) free
  Woke-Spare es' e =
      let s = i.spare in
      let out = served_Apart in
      Spare-frame k k' es es' xs (xs ++ woken) free s
        (record {
          free = ap (λ (ps : Procs). ps.pcb_free) done.procs;
          children = ap (λ (ps : Procs). ps.p_children) done.procs;
          siblings = ap (λ (ps : Procs). ps.p_siblings) done.procs;
          parents = ap (λ (ps : Procs). ps.p_parent) done.procs;
        })
        (All-both _ _ _ free (λ q n (o : NotIn q left × NotIn q xs). done.links q n o.0 o.1)
          (Apart-sym free woken out.0)
          (All-both _ _ _ free (λ q n o. (n, o)) (Apart-sym free left out.1)
            (Apart-sym free xs s.not_ready)))
        (All-map _ _ es' (λ f o. Apart-sym free f.waiting o)
          (AllQueues-view (Apart free) es' (
            subst (AllQueues (Apart free)) (sym e) (
              keep_waiting-AllQueues (Apart free) key left (view es) out.1 (
                view-AllQueues (Apart free) es
                  (All-map _ _ es (λ f o. Apart-sym f.waiting free o) s.not_waiting))))))
        (All-append _ xs woken s.not_ready out.0)
        (rw (ap (λ (j : Kernel). j.current_process) done.rest) s.not_current)

-- Where all of `woken` and `left` waited, waking the ones keeps each process in its place.
pub Woke-Sound :
    (key : ℕ) (k k' : Kernel) (es : List Entry) (fs xs free woken left : List Ptr)
    → InPlace k es fs xs free
    → Woke key (view es) xs woken left k k'
    → ((P : Ptr → Type 0) → All P (waiting_for key (view es)) → All P woken × All P left)
    → Sound k'
Woke-Sound key k k' es fs xs free woken left i done from =
    let (es', fs', q, e) = done.queues in
    let cur = k.current_process in
    let here : k'.current_process ≡ cur = ap (λ (j : Kernel). j.current_process) done.rest in
    let out = from (λ w. w ≢ cur) (waiting_for-All (NotIn cur) key es tt i.not_waiting) in
    let few =
      from (λ w. w ≤ max_proc)
        (waiting_for-All (All (λ w. w ≤ max_proc)) key es tt
          (All-map _ _ es (λ f (h : Holds k.tables f). h.valid) i.queues.asl.table.holds)) in
    (
      es',
      fs',
      xs ++ woken,
      free,
      record {
        queues = q;
        not_ready = rw here (All-append _ xs woken i.not_ready out.0);
        not_waiting = rw here (
            AllQueues-view (NotIn cur) es' (
              subst (AllQueues (NotIn cur)) (sym e) (
                keep_waiting-AllQueues (NotIn cur) key left (view es) out.1
                  (view-AllQueues (NotIn cur) es i.not_waiting))));
        current_valid = rw here i.current_valid;
        ready_valid = All-append _ xs woken i.ready_valid few.0;
        spare = Woke-Spare key k k' es fs xs free woken left i done from es' e;
      },
    )

pub verhogen-Sound :
    (k : Kernel) (key : ℕ) (weight : ℤ)
    → Sound k
    → key ≢ null
    → Proceeds (λ _ k'. Sound k') (verhogen key weight k)
verhogen-Sound k key weight (es, fs, xs, free, i) kne =
    Proceeds-mono (verhogen-Woke k key weight es fs xs i.queues kne) λ _ k' done.
      Woke-Sound key _ k' es fs xs free _ _ (set_value-InPlace key _ k es fs xs free i) done
        (λ P all. served-All P _ _ _ all)
