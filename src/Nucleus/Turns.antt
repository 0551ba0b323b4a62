-- ===== src/Nucleus/Turns.antt =====
-- The scheduler of source/scheduler.c keeps each process in its place.
use jae_os.Prelude.{
  ◌≤◌, ◌≡◌, ◌≢◌, refl, ap, sym, subst, inl, inr, eq_cases, List, [], ◌∷◌, Ptr, null, All,
  All-append, All-both, All-map, All-All, NotIn, Distinct, Distinct-snoc, ==_ne,
}
use jae_os.Const.{max_proc}
use jae_os.Arch.{Arch}
use jae_os.Clist.Ring.{Ring-Distinct}
use jae_os.Pcb.Queue.{Apart-sym}
use jae_os.Asl.{Tables}
use jae_os.Asl.View.{Entry, IsAsl}
use jae_os.Asl.Woken.{Outside, procs-IsAsl}
use jae_os.Kernel.{Kernel, Exit}
use jae_os.Kernel.Runs.{Leaves, Leaves-mono}
use jae_os.Scheduler.{scheduler}
use jae_os.Scheduler.Ready.{requeue, Queued}
use jae_os.Scheduler.Dispatch.{Dispatched}
use jae_os.Scheduler.Modes.{Chooses, scheduler-round_robin}
use jae_os.Nucleus.{InPlace, Sound}
use jae_os.Nucleus.Pool.{Spare-frame}

-- What the current process and the ready ones satisfy, those in line do.
requeue-All :
    (P : Ptr → Type 0) (p : Ptr) (xs : List Ptr)
    → (p ≢ null → P p)
    → All P xs
    → All P (requeue p xs)
requeue-All P p xs h all = elim (eq_cases p null) [
  | inl e ↦ rw e all
  | inr ne ↦ rw (==_ne p null ne) (All-append P xs (p ∷ []) all (h ne, tt))
]

requeue-Distinct : (p : Ptr) (xs : List Ptr) → NotIn p xs → Distinct xs → Distinct (requeue p xs)
requeue-Distinct p xs out d = elim (eq_cases p null) [
  | inl e ↦ rw e d
  | inr ne ↦ rw (==_ne p null ne) (Distinct-snoc p xs out d)
]

-- The list does not rest on the queue links of the processes outside it, nor on times and states.
Queued-IsAsl :
    (k k' : Kernel) (es : List Entry) (fs xs : List Ptr)
    → IsAsl k.tables es fs
    → Queued xs k k'
    → Outside xs es
    → IsAsl k'.tables es fs
Queued-IsAsl k k' es fs xs a queued out =
    subst (λ m. IsAsl m es fs) (sym queued.tables)
      (procs-IsAsl k.tables _ es fs a (
        All-map _ _ es
          (λ f apart. (
            All-map _ _ f.waiting (λ y n. queued.links y n) (Apart-sym f.waiting xs apart),
            All-All _ f.waiting (λ q. refl),
          ))
          out))

module _ (a : Arch) (k : Kernel) (es : List Entry) (fs xs free : List Ptr)
    (i : InPlace k es fs xs free) (x : Ptr) (ys : List Ptr)
    (turn : requeue k.current_process xs ≡ x ∷ ys) where
  Dispatched-Sound :
      (e : Exit) (k' : Kernel)
      → Dispatched a k x ys e k'
      → Queued (k.current_process ∷ xs) k k'
      → Sound k'
  Dispatched-Sound e k' d queued =
      let p = k.current_process in
      let line = requeue-Distinct p xs i.not_ready (Ring-Distinct _ _ i.queues.ready) in
      let apart = subst Distinct turn line in
      let few =
        subst (All (λ y. y ≤ max_proc)) turn
          (requeue-All (λ y. y ≤ max_proc) p xs (λ _. i.current_valid) i.ready_valid) in
      let out : Outside (p ∷ xs) es =
        All-both _ _ _ es (λ f n o. (n, o)) i.not_waiting i.queues.outside in
      let apart_from =
        All-map _ _ es
          (λ f o.
            subst (All (λ y. NotIn y f.waiting)) turn
              (requeue-All (λ y. NotIn y f.waiting) p xs (λ _. o.0) o.1))
          out in
      let others =
        subst (All (λ y. NotIn y free)) turn
          (requeue-All (λ y. NotIn y free) p xs (λ _. i.spare.not_current) i.spare.not_ready) in
      (
        es,
        fs,
        ys,
        free,
        record {
          queues = record {
            asl = Queued-IsAsl k k' es fs (p ∷ xs) i.queues.asl queued out;
            ready = d.ready;
            outside = All-map _ _ es (λ f o. o.1) apart_from;
          };
          not_ready = rw d.current apart.0;
          not_waiting = rw d.current (All-map _ _ es (λ f o. o.0) apart_from);
          current_valid = rw d.current few.0;
          ready_valid = few.1;
          spare =
              Spare-frame k k' es es xs ys free i.spare
                (record {
                  free = ap (λ (t : Tables). t.procs.pcb_free) queued.tables;
                  children = ap (λ (t : Tables). t.procs.p_children) queued.tables;
                  siblings = ap (λ (t : Tables). t.procs.p_siblings) queued.tables;
                  parents = ap (λ (t : Tables). t.procs.p_parent) queued.tables;
                })
                (All-both _ _ _ free (λ q n o. queued.links q ((λ c. n (sym c)), o))
                  i.spare.not_current (Apart-sym free xs i.spare.not_ready))
                i.spare.not_waiting others.1 (rw d.current others.0);
        },
      )

  pub scheduler-Sound : Chooses k.flag → Leaves (λ _ k'. Sound k') (scheduler a k)
  scheduler-Sound f =
      Leaves-mono (scheduler-round_robin a k xs x ys f i.queues.ready i.not_ready turn)
        λ e k' ((d, queued), _). Dispatched-Sound e k' d queued
