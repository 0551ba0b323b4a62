-- ===== src/Syscall/Process/Exit.antt =====
-- terminate_process in source/syscall.c, for the process that calls it.
use jae_os.Prelude.{
  ◌≡◌, ◌≢◌, sym, ap, subst, ◌∙◌, ◌⊎◌, ℕ, Bool, true, ◌==◌, ◌||◌, ◌<◌, List, [], ◌∷◌, ◌++◌, arith,
  Ptr, null, All, All-All, All-map, All-both, All-append, NotIn, length, if◌then◌else◌,
}
use jae_os.Prelude.Int.{pos, ◌-ℤ◌}
use jae_os.Const.{rounds, load_next}
use jae_os.Arch.{Arch}
use jae_os.Clist.Ring.{Ring-frame}
use jae_os.Pcb.{Procs}
use jae_os.Pcb.Alloc.{Free}
use jae_os.Pcb.Queue.{Apart, Apart-sym}
use jae_os.Asl.View.{Entry, IsAsl}
use jae_os.Asl.Insert.{NotWaiting}
use jae_os.Asl.Woken.{Outside, Outside-append, procs-IsAsl}
use jae_os.Asl.Spec.{view}
use jae_os.Kernel.{Kernel, K, ◌>>◌, set_current, set_flag}
use jae_os.Kernel.Runs.{Proceeds, proceeds, Proceeds-bind, nonnull-Proceeds}
use jae_os.Scheduler.Ready.{Ready}
use jae_os.Syscall.Semaphore.Serve.{lowered}
use jae_os.Syscall.Process.{terminate_process, remove_process}
use jae_os.Syscall.Process.Unblock.{SameLink}
use jae_os.Syscall.Process.Bury.{tolls, bury_all}
use jae_os.Syscall.Process.Doomed.{Doomed}
use jae_os.Syscall.Process.Family.{Forest, descendants, IsForest}
use jae_os.Syscall.Process.Killed.{Killed}
use jae_os.Syscall.Process.Terminate.{terminate_children-family}
use jae_os.Syscall.Process.Removal.{
  not_there, Parentage, orphan, child_of, Bereaved, Steady, Parentage-Steady, Removed,
  remove_process-Removed,
}

-- The current process can end: it waits for nothing, is not ready or free and not below itself, and
-- the ready processes are neither waiting nor free nor below it.
pub record CanEnd (k : Kernel) (es : List Entry) (free ds rs : List Ptr) : Type 0 where
  pub lives : k.current_process ≢ null
  pub ready : Ready k rs
  pub short : length rs < rounds
  pub not_below : NotIn k.current_process ds
  pub not_free : NotIn k.current_process free
  pub not_ready : NotIn k.current_process rs
  pub running : NotWaiting k.current_process es
  pub free_apart : Apart free rs
  pub below_apart : Apart ds rs
  pub idle : All (λ y. NotWaiting y es) rs

-- The parent and its children are not among `ds`.
abbrev pub Aloof : {p : Ptr} {m : Procs} → List Ptr → Parentage p m → Type 0
Aloof ds (orphan e) = Unit
Aloof {p = p} ds (child_of q bs cs ne is small) = (q ≢ p) × NotIn q ds × Apart ds (bs ++ p ∷ cs)

-- The process and those below it have ended.
pub record Ended (a : Arch) (es es' : List Entry) (fs' free ds rs : List Ptr) (k : Kernel)
    (parent : Parentage k.current_process k.tables.procs) (k' : Kernel) : Type 0 where
  pub asl : IsAsl k'.tables es' fs'
  pub tolls_are :
      tolls (view es') k'.machine.memory k'.soft_block_count
      ≡ bury_all a k.tables.procs.res_wait ds (tolls (view es) k.machine.memory k.soft_block_count)
  pub freed : Free k'.tables.procs ((free ++ ds) ++ k.current_process ∷ [])
  pub outside : Outside ((free ++ ds) ++ k.current_process ∷ []) es'
  pub ready : Ready k' rs
  pub family : Bereaved parent k'.tables.procs
  pub procs : k'.tables.procs ≡ record k.tables.procs {
    p_list = k'.tables.procs.p_list;
    pcb_free = k'.tables.procs.pcb_free;
    p_parent = k'.tables.procs.p_parent;
    p_children = k'.tables.procs.p_children;
    p_siblings = k'.tables.procs.p_siblings;
  }
  pub rest : k' ≡ record k {
    tables = k'.tables;
    readyqueue = k'.readyqueue;
    current_process = null;
    flag = load_next;
    process_count = lowered k.process_count ds -ℤ pos 1;
    soft_block_count = k'.soft_block_count;
    machine = record k.machine { memory = k'.machine.memory };
  }

-- Processes that wait for nothing.
pub Outside-all : (xs : List Ptr) (es : List Entry) → All (λ y. NotWaiting y es) xs → Outside xs es
Outside-all [] es all = All-All _ es λ e. tt
Outside-all (x ∷ xs) es all = All-both _ _ _ es (λ e n a. (n, a)) all.0 (Outside-all xs es all.1)

-- The parent is not affected when those below the process are killed.
pub Killed-Steady :
    (a : Arch) (p : Ptr) (es es' : List Entry) (fs' free ds : List Ptr) (k k' : Kernel)
    → Killed a p ds es es' fs' free k k'
    → NotIn p ds
    → (parent : Parentage p k.tables.procs) → Aloof ds parent
    → Steady k'.tables.procs parent
Killed-Steady a p es es' fs' free ds k k' d out (orphan e) aloof = (d.links p out).1
Killed-Steady a p es es' fs' free ds k k' d out (child_of q bs cs ne is small)
      (differs, off, apart) =
    (d.headers q differs off, All-map _ _ (bs ++ p ∷ cs) d.links apart)

-- What terminate_process does when those below the current process have been killed.
abbrev end_process : Arch → Ptr → K (Unit {0})
end_process a p = do remove_process a p; set_current null; set_flag load_next

module _ (a : Arch) (k k1 : Kernel) (es es1 : List Entry) (fs1 free ds : List Ptr) where
  abbrev p : Ptr
  p = k.current_process

  module _ (rs : List Ptr) (c : CanEnd k es free ds rs)
      (d : Killed a p ds es es1 fs1 free k k1) where
    ready_away : All (λ y. NotIn y ds × NotIn y free) rs
    ready_away = All-both _ _ _ rs (λ y b f. (b, f)) c.below_apart c.free_apart

    ready_idle : All (λ y. SameLink k k1 y × NotWaiting y es1) rs
    ready_idle =
        All-both (λ y. NotIn y ds × NotIn y free) _ _ rs (λ y o n. d.idle y o.0 o.1 n) ready_away
          c.idle

    Ready-kept : Ready k1 rs
    Ready-kept =
        Ring-frame _ _ rs (ap (λ (j : Kernel). j.readyqueue) d.rest)
          (All-map _ _ rs (λ y l. l.0) ready_idle) c.ready

    ended :
        (k2 : Kernel) (parent : Parentage p k.tables.procs) (parent1 : Parentage p k1.tables.procs)
        → ((m : Procs) → Bereaved parent1 m → Bereaved parent m)
        → Removed p c.lives (free ++ ds) rs rs k1 parent1 k2
        → Ended a es es1 fs1 free ds rs k parent
            (record k2 { current_process = null; flag = load_next })
    ended k2 parent parent1 same r =
        let gone = (d.idle p c.not_below c.not_free c.running).1 in
        record {
          asl =
              subst (λ t. IsAsl t es1 fs1) (sym (ap (λ (j : Kernel). j.tables) r.rest))
                (procs-IsAsl k1.tables k2.tables.procs es1 fs1 d.asl (
                  All-both _ _ _ es1
                    (λ f o n. (
                      All-both _ _ _ f.waiting (λ y u v. r.links y u v)
                          (All-both _ _ (λ y. NotIn y (p ∷ free ++ ds)) f.waiting
                            (λ y u v. ((λ e. u (sym e)), v)) n.0
                            (Apart-sym f.waiting (free ++ ds) o))
                          (Apart-sym f.waiting rs n.1),
                      All-All _ f.waiting (λ y. ap (λ (ps : Procs). ps.p_cursem y) r.procs),
                    ))
                    d.outside
                    (All-both _ _ (λ f. NotIn p f.waiting × Apart f.waiting rs) es1
                      (λ f n o. (n, o)) gone
                      (Outside-all rs es1 (All-map _ _ rs (λ y l. l.1) ready_idle)))));
          tolls_are =
              ap (λ (j : Kernel). tolls (view es1) j.machine.memory j.soft_block_count) r.rest
              ∙ d.tolls_are;
          freed = r.freed;
          outside = Outside-append (free ++ ds) p es1 d.outside gone;
          ready = r.ready;
          family = same k2.tables.procs r.family;
          procs =
              r.procs
              ∙ ap {A = Procs}
                  (λ ps. record ps {
                    p_list = k2.tables.procs.p_list;
                    pcb_free = k2.tables.procs.pcb_free;
                    p_parent = k2.tables.procs.p_parent;
                    p_children = k2.tables.procs.p_children;
                    p_siblings = k2.tables.procs.p_siblings;
                  })
                  d.procs;
          rest =
              ap (λ (j : Kernel). record j { current_process = null; flag = load_next }) r.rest
              ∙ ap
                  (λ (j : Kernel). record j {
                    tables = record k1.tables { procs = k2.tables.procs };
                    readyqueue = k2.readyqueue;
                    process_count = j.process_count -ℤ pos 1;
                    current_process = null;
                    flag = load_next;
                  })
                  d.rest
              ∙ ap
                  (λ (j : Kernel). record k {
                    tables = j.tables;
                    readyqueue = k2.readyqueue;
                    process_count = lowered k.process_count ds -ℤ pos 1;
                    current_process = null;
                    flag = load_next;
                    soft_block_count = j.soft_block_count;
                    machine = record k.machine { memory = j.machine.memory };
                  })
                  (sym r.rest);
        }

    -- When those below the process have been killed.
    end_process-Ended :
        (parent : Parentage p k.tables.procs)
        → Aloof ds parent
        → Proceeds
            (λ _ k'.
              (es' : List Entry) × (fs' : List Ptr) × Ended a es es' fs' free ds rs k parent k')
            (end_process a p k1)
    end_process-Ended parent aloof =
        let (parent1, same) =
          Parentage-Steady k1.tables.procs parent
            (Killed-Steady a p es es1 fs1 free ds k k1 d c.not_below parent aloof) in
        Proceeds-bind
          (remove_process-Removed p c.lives (free ++ ds) rs rs k1 parent1 a
            (not_there rs c.not_ready) d.freed Ready-kept c.short
            (All-append _ free ds c.not_free c.not_below)
            (All-map _ _ rs (λ y o. All-append _ free ds o.1 o.0) ready_away))
          λ _ k2 r. proceeds (es1, fs1, ended k2 parent parent1 same r)

chosen-Proceeds :
    {A B : Type 0} {P : A → Kernel → Type 0} {Q : B → Kernel → Type 0} (b : Bool) (f : K A)
    (g h : K B) (k : Kernel)
    → b ≡ true
    → Proceeds P (f k)
    → ((x : A) (k' : Kernel) → P x k' → Proceeds Q (g k'))
    → Proceeds Q ((if b then f >> g else h) k)
chosen-Proceeds b f g h k e is then_do = rw e (Proceeds-bind is then_do)

-- terminate_process of 0 or of the id of the calling process ends the process and all those below
-- it: their descriptors become free behind the free ones, the process leaves the list of its
-- parent, if it has one, and the ready processes are as they were; those below it that wait for a
-- semaphore leave its queue, are no more counted as blocked, and give back what they have asked
-- for, but not to a device; the count of processes is lowered by one for each, there is no current
-- process, and the scheduler is to load the next one. Nothing else changes but queue links and
-- links of the tree. It is supposed that there are at most twenty processes below, all different,
-- none of them free or ready, and that each that names a semaphore waits for it; that the current
-- process is in no queue, not free and not below itself; that its parent, if it has one, is another
-- process with at most twenty children, and it and they are not below the current process; that the
-- at most twenty ready processes are not free and wait for nothing; and that the semaphore list and
-- the list of free descriptors satisfy their invariants and have no process in common.
pub terminate_process-own :
    (a : Arch) (pid : ℕ) (k : Kernel) (forest : Forest) (es : List Entry) (fs free rs : List Ptr)
    (parent : Parentage k.current_process k.tables.procs)
    → ((pid ≡ 0) ⊎ (pid ≡ k.tables.procs.pid k.current_process))
    → Doomed k es fs free (descendants forest)
    → IsForest k.tables.procs k.current_process forest
    → length (descendants forest) < rounds
    → CanEnd k es free (descendants forest) rs
    → Aloof (descendants forest) parent
    → Proceeds
        (λ _ k'.
          (es' : List Entry) × (fs' : List Ptr) × Ended a es es' fs' free
            (descendants forest)
            rs
            k
            parent
            k')
        (terminate_process a pid k)
unfolding terminate_process
terminate_process-own a pid k forest es fs free rs parent own i is enough c aloof =
    let p = k.current_process in
    let ds = descendants forest in
    nonnull-Proceeds p c.lives _ _ (
      chosen-Proceeds (pid == 0 || pid == k.tables.procs.pid p) _ _ _ k
        (chosen pid (k.tables.procs.pid p) own)
        (terminate_children-family a k p forest es fs free i is c.lives c.not_below enough)
        (λ _ k1 (es1, fs1, d, _). end_process-Ended a k k1 es es1 fs1 free ds rs c d parent aloof))
  where
    chosen : (pid own : ℕ) → (pid ≡ 0) ⊎ (pid ≡ own) → (pid == 0 || pid == own) ≡ true
    chosen pid own h = ground arith
