-- ===== src/Syscall/Process/Descendant.antt =====
-- terminate_process in source/syscall.c, for a process below the one that calls it.
use jae_os.Prelude.{
  ◌≡◌, ◌≢◌, sym, ap, subst, ◌∙◌, ◌<◌, List, [], ◌∷◌, ◌++◌, Ptr, null, All, All-All, All-at, All-map,
  All-both, All-append, All-append_left, NotIn, Distinct-NotIn, length,
}
use jae_os.Prelude.Int.{pos, ◌-ℤ◌}
use jae_os.Const.{rounds}
use jae_os.Arch.{Arch}
use jae_os.Clist.Ring.{Ring-frame}
use jae_os.Pcb.{Procs}
use jae_os.Pcb.Alloc.{Free}
use jae_os.Pcb.Queue.{Apart, Apart-sym}
use jae_os.Asl.View.{Entry, IsAsl}
use jae_os.Asl.Insert.{NotWaiting}
use jae_os.Asl.Woken.{Outside, Outside-append, procs-IsAsl}
use jae_os.Asl.Spec.{view}
use jae_os.Kernel.{Kernel}
use jae_os.Kernel.Runs.{Proceeds, Proceeds-bind, Proceeds-mono}
use jae_os.Scheduler.Ready.{Ready}
use jae_os.Syscall.Semaphore.Serve.{lowered}
use jae_os.Syscall.Process.Bury.{tolls, bury, bury_all, bury_all-append, bury_all-one}
use jae_os.Syscall.Process.Unblock.{SameLink, Unblocked, unblock-Unblocked}
use jae_os.Syscall.Process.Doomed.{Doomed, Doomed-after, Doomed-left}
use jae_os.Syscall.Process.Family.{Forest, descendants, IsForest}
use jae_os.Syscall.Process.Killed.{Killed}
use jae_os.Syscall.Process.Terminate.{terminate_children-family}
use jae_os.Syscall.Process.Removal.{
  IsLeft, Parentage, orphan, child_of, Bereaved, Steady, Parentage-Steady, Removed,
  remove_process-Removed,
}
use jae_os.Syscall.Process.Exit.{Aloof, Outside-all}
use jae_os.Syscall.Process.Search.{kill}

-- The process `x` is gone with those below it; of the ready processes `ys` are left.
pub record Slain (a : Arch) (x : Ptr) (es es' : List Entry) (fs' free ds ys : List Ptr) (k : Kernel)
    (parent : Parentage x k.tables.procs) (k' : Kernel) : Type 0 where
  pub asl : IsAsl k'.tables es' fs'
  pub tolls_are :
      tolls (view es') k'.machine.memory k'.soft_block_count
      ≡ bury_all a k.tables.procs.res_wait
          (ds ++ x ∷ [])
          (tolls (view es) k.machine.memory k.soft_block_count)
  pub freed : Free k'.tables.procs ((free ++ ds) ++ x ∷ [])
  pub outside : Outside ((free ++ ds) ++ x ∷ []) es'
  pub ready : Ready k' ys
  pub family : Bereaved parent k'.tables.procs
  pub procs : k'.tables.procs ≡ record k.tables.procs {
    p_list = k'.tables.procs.p_list;
    pcb_free = k'.tables.procs.pcb_free;
    p_parent = k'.tables.procs.p_parent;
    p_children = k'.tables.procs.p_children;
    p_siblings = k'.tables.procs.p_siblings;
  }
  pub rest : k' ≡ record k {
    tables = k'.tables;
    readyqueue = k'.readyqueue;
    process_count = lowered k.process_count ds -ℤ pos 1;
    soft_block_count = k'.soft_block_count;
    machine = record k.machine { memory = k'.machine.memory };
  }

-- The ready processes are neither waiting nor free nor below `x`.
pub record Bystanders (k : Kernel) (es : List Entry) (free ds rs : List Ptr) : Type 0 where
  pub ready : Ready k rs
  pub short : length rs < rounds
  pub free_apart : Apart free rs
  pub below_apart : Apart ds rs
  pub idle : All (λ y. NotWaiting y es) rs

module _ (a : Arch) (x : Ptr) (es es1 es2 : List Entry) (fs1 fs2 free ds rs : List Ptr)
    (k k1 k2 : Kernel) (b : Bystanders k es free ds rs) (d : Killed a x ds es es1 fs1 free k k1)
    (u : Unblocked a x es1 es2 fs2 (free ++ ds) k1 k2) where
  rs-Apart : Apart (free ++ ds) rs
  rs-Apart = All-both _ _ _ rs (λ y f o. All-append _ free ds f o) b.free_apart b.below_apart

  rs_idle : All (λ y. SameLink k k2 y × NotWaiting y es2) rs
  rs_idle =
      All-both (λ y. NotIn y ds × NotIn y free) _ _ rs
        (λ y o n. let (l1, n1) = d.idle y o.0 o.1 n in let (l2, n2) = u.idle y n1 in (l2 ∙ l1, n2))
        (All-both _ _ _ rs (λ y o f. (o, f)) b.below_apart b.free_apart) b.idle

  Ready-kept : Ready k2 rs
  Ready-kept =
      Ring-frame _ _ rs
        (ap (λ (j : Kernel). j.readyqueue) u.rest ∙ ap (λ (j : Kernel). j.readyqueue) d.rest)
        (All-map _ _ rs (λ y l. l.0) rs_idle) b.ready

  steady :
      NotIn x ds
      → (parent : Parentage x k.tables.procs) → Aloof ds parent
      → Steady k2.tables.procs parent
  steady out (orphan e) aloof = ap (λ (ps : Procs). ps.p_parent x) u.procs ∙ (d.links x out).1
  steady out (child_of q bs cs ne is small) (differs, off, apart) = (
    ap (λ (ps : Procs). ps.p_children q) u.procs ∙ d.headers q differs off,
    All-map _ _ (bs ++ x ∷ cs)
        (λ y o. (
          ap (λ (ps : Procs). ps.p_siblings y) u.procs ∙ (d.links y o).0,
          ap (λ (ps : Procs). ps.p_parent y) u.procs ∙ (d.links y o).1,
        ))
        apart,
  )

  slain :
      (ne : x ≢ null) (ys : List Ptr) (k3 : Kernel) (parent : Parentage x k.tables.procs)
      (parent2 : Parentage x k2.tables.procs)
      → ((m : Procs) → Bereaved parent2 m → Bereaved parent m)
      → Removed x ne (free ++ ds) rs ys k2 parent2 k3
      → Slain a x es es2 fs2 free ds ys k parent k3
  slain ne ys k3 parent parent2 same r = record {
    asl =
        subst (λ t. IsAsl t es2 fs2) (sym (ap (λ (j : Kernel). j.tables) r.rest))
          (procs-IsAsl k2.tables k3.tables.procs es2 fs2 u.asl (
            All-both _ _ _ es2
              (λ f o n. (
                All-both _ _ _ f.waiting (λ y v w. r.links y v w)
                    (All-both _ _ (λ y. NotIn y (x ∷ free ++ ds)) f.waiting
                      (λ y v w. ((λ e. v (sym e)), w)) n.0 (Apart-sym f.waiting (free ++ ds) o))
                    (Apart-sym f.waiting rs n.1),
                All-All _ f.waiting (λ y. ap (λ (ps : Procs). ps.p_cursem y) r.procs),
              ))
              u.outside
              (All-both _ _ (λ f. NotIn x f.waiting × Apart f.waiting rs) es2 (λ f n o. (n, o))
                u.gone (Outside-all rs es2 (All-map _ _ rs (λ y l. l.1) rs_idle)))));
    tolls_are =
        ap (λ (j : Kernel). tolls (view es2) j.machine.memory j.soft_block_count) r.rest
        ∙ u.tolls_are
        ∙ ap
            (λ (ps : Procs).
              bury a ps.res_wait x (tolls (view es1) k1.machine.memory k1.soft_block_count))
            d.procs
        ∙ ap (bury a k.tables.procs.res_wait x) d.tolls_are
        ∙ sym (
            bury_all-append a k.tables.procs.res_wait ds (x ∷ []) _
            ∙ bury_all-one a k.tables.procs.res_wait x _);
    freed = r.freed;
    outside = Outside-append (free ++ ds) x es2 u.outside u.gone;
    ready = r.ready;
    family = same k3.tables.procs r.family;
    procs =
        r.procs
        ∙ ap {A = Procs}
            (λ ps. record ps {
              p_list = k3.tables.procs.p_list;
              pcb_free = k3.tables.procs.pcb_free;
              p_parent = k3.tables.procs.p_parent;
              p_children = k3.tables.procs.p_children;
              p_siblings = k3.tables.procs.p_siblings;
            })
            (u.procs
              ∙ ap {A = Procs} (λ ps. record ps { p_list = k2.tables.procs.p_list }) d.procs);
    rest =
        r.rest
        ∙ ap
            (λ (j : Kernel). record j {
              tables = record k2.tables { procs = k3.tables.procs };
              readyqueue = k3.readyqueue;
              process_count = j.process_count -ℤ pos 1;
            })
            u.rest
        ∙ ap
            (λ (j : Kernel). record j {
              tables = record k2.tables { procs = k3.tables.procs };
              readyqueue = k3.readyqueue;
              process_count = j.process_count -ℤ pos 1;
              soft_block_count = k2.soft_block_count;
              machine = record j.machine { memory = k2.machine.memory };
            })
            d.rest
        ∙ ap
            (λ (j : Kernel). record k {
              tables = j.tables;
              readyqueue = k3.readyqueue;
              process_count = lowered k.process_count ds -ℤ pos 1;
              soft_block_count = j.soft_block_count;
              machine = record k.machine { memory = j.machine.memory };
            })
            (sym r.rest);
  }

-- The process and all those below it are killed.
pub kill-Slain :
    (a : Arch) (x : Ptr) (below : Forest) (es : List Entry) (fs free rs ys : List Ptr) (k : Kernel)
    (parent : Parentage x k.tables.procs)
    → Doomed k es fs free (descendants below ++ x ∷ [])
    → IsForest k.tables.procs x below
    → length (descendants below) < rounds
    → Bystanders k es free (descendants below) rs
    → IsLeft x rs ys
    → Aloof (descendants below) parent
    → Proceeds
        (λ _ k'.
          (es' : List Entry) × (fs' : List Ptr) × Slain a x es es' fs' free
            (descendants below)
            ys
            k
            parent
            k')
        (kill a x k)
kill-Slain a x below es fs free rs ys k parent i is few b left aloof =
    let ds = descendants below in
    let ne = All-at _ ds x [] i.nonnull in
    let out = All-append_left _ ds [] (Distinct-NotIn ds x [] i.distinct) in
    Proceeds-bind
      (terminate_children-family a k x below es fs free (Doomed-left ds (x ∷ []) es fs free k i) is
        ne out few)
      λ _ k1 (es1, fs1, d, _).
        let j = Doomed-after a x ds (x ∷ []) es es1 fs fs1 free k k1 i d in
        Proceeds-bind
          (unblock-Unblocked a k1 (free ++ ds) j.ring fs1 x es1 j.asl ne j.named.0 j.outside)
          λ _ k2 (es2, fs2, u).
            let (parent2, same) =
              Parentage-Steady k2.tables.procs parent
                (steady a x es es1 es2 fs1 fs2 free ds rs k k1 k2 b d u out parent aloof) in
            Proceeds-mono
              (remove_process-Removed x ne (free ++ ds) rs ys k2 parent2 a left u.free_kept
                (Ready-kept a x es es1 es2 fs1 fs2 free ds rs k k1 k2 b d u) b.short j.apart.0
                (rs-Apart a x es es1 es2 fs1 fs2 free ds rs k k1 k2 b d u))
              λ _ k3 r. (
                es2,
                fs2,
                slain a x es es1 es2 fs1 fs2 free ds rs k k1 k2 b d u ne ys k3 parent parent2 same
                    r,
              )
