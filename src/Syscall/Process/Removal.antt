-- ===== src/Syscall/Process/Removal.antt =====
-- The end of lookfor_progeny and of terminate_process in source/syscall.c: a process leaves the tree
-- and the ready queue, and its descriptor becomes free.
use jae_os.Prelude.{
  ◌<◌, ◌≡◌, ◌≢◌, refl, sym, ap, ◌∙◌, List, [], ◌∷◌, ◌++◌, Ptr, null, Returns, returns, Returns-mono,
  All-All, All-map, All-both, All, All-drop, Distinct, Distinct-NotIn, NotIn, length,
}
use jae_os.Prelude.Int.{pos, ◌-ℤ◌}
use jae_os.Const.{rounds}
use jae_os.Arch.{Arch}
use jae_os.Clist.Ring.{Ring, Ring-frame, Ring-Distinct}
use jae_os.Pcb.{Procs, queue, out_child, out_proc_q}
use jae_os.Pcb.Alloc.{Free, free_pcb-LinksOnly}
use jae_os.Pcb.Queue.{LinksOnly, Apart, Apart-sym, out_proc_q-append, out_proc_q-absent}
use jae_os.Pcb.Tree.{IsChildren, out_child-append, out_child-orphan}
use jae_os.Kernel.{Kernel, set_procs}
use jae_os.Kernel.Runs.{Proceeds, Proceeds-bind, Proceeds-mono, from_run-Proceeds}
use jae_os.Scheduler.{put_ready}
use jae_os.Scheduler.Ready.{Ready}
use jae_os.Syscall.Process.{remove_process}
use jae_os.Syscall.Process.Family.{SameHeader, SameLinks, IsChildren-same}

-- What is left of a queue when `p` has been taken out.
pub data IsLeft (p : Ptr) : List Ptr → List Ptr → Type 0 where
  not_there : (xs : List Ptr) → NotIn p xs → IsLeft p xs xs
  was_there : (bs cs : List Ptr) → IsLeft p (bs ++ p ∷ cs) (bs ++ cs)

pub IsLeft-All :
    {p : Ptr} (P : Ptr → Type 0) (xs ys : List Ptr) → IsLeft p xs ys → All P xs → All P ys
IsLeft-All P xs ys (not_there zs out) all = all
IsLeft-All {p = p} P xs ys (was_there bs cs) all = All-drop P bs p cs all

IsLeft-NotIn : {p : Ptr} (xs ys : List Ptr) → IsLeft p xs ys → Distinct xs → NotIn p ys
IsLeft-NotIn xs ys (not_there zs out) d = out
IsLeft-NotIn {p = p} xs ys (was_there bs cs) d = Distinct-NotIn bs p cs d

-- The parent of `p`, if any, with its children.
pub data Parentage (p : Ptr) (m : Procs) : Type 0 where
  orphan : m.p_parent p ≡ null → Parentage p m
  child_of :
      (q : Ptr) (bs cs : List Ptr)
      → q ≢ null
      → IsChildren m q (bs ++ p ∷ cs)
      → length (bs ++ p ∷ cs) < rounds
      → Parentage p m

-- The parent has lost this child.
abbrev pub Bereaved : {p : Ptr} {m : Procs} → Parentage p m → Procs → Type 0
Bereaved (orphan e) m' = Unit
Bereaved (child_of q bs cs ne is small) m' = IsChildren m' q (bs ++ cs)

-- The links of the parent and of its children are the same.
abbrev pub Steady : {p : Ptr} {m : Procs} → Procs → Parentage p m → Type 0
Steady {p = p} {m = m} m' (orphan e) = m'.p_parent p ≡ m.p_parent p
Steady {p = p} {m = m} m' (child_of q bs cs ne is small) =
    SameHeader m m' q × All (SameLinks m m') (bs ++ p ∷ cs)

pub Parentage-Steady :
    {p : Ptr} {m : Procs} (m' : Procs) (parent : Parentage p m)
    → Steady m' parent
    → (parent' : Parentage p m') × ((n : Procs) → Bereaved parent' n → Bereaved parent n)
Parentage-Steady m' (orphan e) same = (orphan (same ∙ e), λ n _. tt)
Parentage-Steady {p = p} {m = m} m' (child_of q bs cs ne is small) (header, links) = (
  child_of q bs cs ne (IsChildren-same m m' q (bs ++ p ∷ cs) header links is) small,
  λ n left. left,
)

Bereaved-same :
    {p : Ptr} {m : Procs} (parent : Parentage p m) (n n' : Procs)
    → n' ≡ record n { p_list = n'.p_list; pcb_free = n'.pcb_free }
    → Bereaved parent n
    → Bereaved parent n'
Bereaved-same (orphan e) n n' only is = tt
Bereaved-same (child_of q bs cs ne _ small) n n' only is =
    IsChildren-same n n' q (bs ++ cs) (ap (λ (ps : Procs). ps.p_children q) only)
      (All-All _ (bs ++ cs)
        λ y. (ap (λ (ps : Procs). ps.p_siblings y) only, ap (λ (ps : Procs). ps.p_parent y) only))
      is

-- Of the descriptors at most the links of the tree have changed.
abbrev TreeLinks : Procs → Procs → Type 0
TreeLinks m m' =
    m' ≡ record m { p_parent = m'.p_parent; p_children = m'.p_children; p_siblings = m'.p_siblings }

module _ (p : Ptr) (ne : p ≢ null) where
  out_child-Bereaved :
      (m : Procs) (parent : Parentage p m)
      → Returns (λ (r, m'). TreeLinks m m' × Bereaved parent m') (out_child p m)
  out_child-Bereaved m (orphan e) = rw (out_child-orphan m p ne e) (returns (refl, tt))
  out_child-Bereaved m (child_of q bs cs q_ne is small) =
      Returns-mono (out_child-append m q q_ne bs p cs is small)
        λ (r, m') (_, left, _, only). (only.rest, left)

  out_proc_q-IsLeft :
      (m : Procs) (q : Ptr) (xs ys : List Ptr)
      → IsLeft p xs ys
      → Ring (queue m q) xs
      → length xs < rounds
      → Returns (λ (r, q', m'). Ring (queue m' q') ys × LinksOnly xs m m') (out_proc_q q p m)
  out_proc_q-IsLeft m q xs ys (not_there zs out) ring small =
      rw (out_proc_q-absent m q zs ring p out small)
        (returns (ring, record { rest = refl; same = λ y _. refl }))
  out_proc_q-IsLeft m q xs ys (was_there bs cs) ring small =
      Returns-mono (out_proc_q-append m q (bs ++ p ∷ cs) ring p bs cs refl small)
        λ _ (_, left, only). (left, only)

  -- The process is free, and in no queue or family.
  pub record Removed (free xs ys : List Ptr) (k : Kernel) (parent : Parentage p k.tables.procs)
      (k' : Kernel) : Type 0 where
    pub freed : Free k'.tables.procs (free ++ p ∷ [])
    pub ready : Ready k' ys
    pub family : Bereaved parent k'.tables.procs
    pub links :
        (q : Ptr)
        → NotIn q (p ∷ free)
        → NotIn q xs
        → k'.tables.procs.p_list q ≡ k.tables.procs.p_list q
    pub procs : k'.tables.procs ≡ record k.tables.procs {
      p_list = k'.tables.procs.p_list;
      pcb_free = k'.tables.procs.pcb_free;
      p_parent = k'.tables.procs.p_parent;
      p_children = k'.tables.procs.p_children;
      p_siblings = k'.tables.procs.p_siblings;
    }
    pub rest : k' ≡ record k {
      tables = record k.tables { procs = k'.tables.procs };
      readyqueue = k'.readyqueue;
      process_count = k.process_count -ℤ pos 1;
    }

  module _ (free xs ys : List Ptr) (k : Kernel) (parent : Parentage p k.tables.procs) where
    removed :
        (m1 : Procs) (q : Ptr) (m2 m3 : Procs)
        → NotIn p ys
        → Apart free ys
        → TreeLinks k.tables.procs m1
        → Bereaved parent m1
        → Ring (queue m2 q) ys
        → LinksOnly xs m1 m2
        → Free m3 (free ++ p ∷ [])
        → m3 ≡ record m2 { p_list = m3.p_list; pcb_free = m3.pcb_free }
        → ((y : Ptr) → NotIn y (p ∷ free) → m3.p_list y ≡ m2.p_list y)
        → Removed free xs ys k parent
            (set_procs m3 (record k { process_count = k.process_count -ℤ pos 1; readyqueue = q }))
    removed m1 q m2 m3 out apart tree family ring only ring3 only3 same =
        let after : m3 ≡ record m1 { p_list = m3.p_list; pcb_free = m3.pcb_free } =
          only3
          ∙ ap {A = Procs} (λ ps. record ps { p_list = m3.p_list; pcb_free = m3.pcb_free })
              only.rest in
        record {
          freed = ring3;
          ready =
              Ring-frame _ _ ys refl
                (All-both _ _ _ ys (λ y o f. same y ((λ e. o (sym e)), f)) out apart) ring;
          family = Bereaved-same parent m1 m3 after family;
          links = λ y o o'. same y o ∙ only.same y o' ∙ ap (λ (ps : Procs). ps.p_list y) tree;
          procs =
              after
              ∙ ap {A = Procs} (λ ps. record ps { p_list = m3.p_list; pcb_free = m3.pcb_free }) tree
              ∙ rw
                  (
                    ap (λ (ps : Procs). ps.p_parent) after,
                    ap (λ (ps : Procs). ps.p_children) after,
                    ap (λ (ps : Procs). ps.p_siblings) after,
                  )
                  refl;
          rest = refl;
        }

    pub remove_process-Removed :
        (a : Arch)
        → IsLeft p xs ys
        → Free k.tables.procs free
        → Ready k xs
        → length xs < rounds
        → NotIn p free
        → Apart free xs
        → Proceeds (λ _ k'. Removed free xs ys k parent k') (remove_process a p k)
    unfolding remove_process
    remove_process-Removed a left ring ready small new apart =
        let k1 = record k { process_count = k.process_count -ℤ pos 1 } in
        Proceeds-bind
          (from_run-Proceeds {A = Ptr × Procs} (λ r k. set_procs r.1 k) (λ r. r.0) k1
            (out_child-Bereaved k.tables.procs parent))
          λ _ k2 ((_, m1), (tree, family), _, e2). rw e2 (
            Proceeds-bind
              (from_run-Proceeds {A = Ptr × Ptr × Procs} (λ r. put_ready r.1 r.2) (λ r. r.0)
                (set_procs m1 k1)
                (out_proc_q-IsLeft m1 k.readyqueue xs ys left
                  (Ring-frame _ _ xs refl (All-All _ xs λ y. ap (λ (ps : Procs). ps.p_list y) tree)
                    ready)
                  small))
              λ _ k3 ((_, q, m2), (ring2, only), _, e3). rw e3 (
                Proceeds-mono
                  (from_run-Proceeds set_procs (λ _. tt) (put_ready q m2 (set_procs m1 k1))
                    (free_pcb-LinksOnly m2 p free (free_still m1 m2 tree only) ne new))
                  λ _ k4 (m3, (ring3, only3, same), _, e4). rw e4 (
                    removed m1 q m2 m3 (IsLeft-NotIn xs ys left (Ring-Distinct _ _ ready))
                      (IsLeft-All _ xs ys left apart) tree family ring2 only ring3 only3 same)))
      where
        free_still :
            (m1 m2 : Procs) → TreeLinks k.tables.procs m1 → LinksOnly xs m1 m2 → Free m2 free
        free_still m1 m2 tree only =
            Ring-frame _ _ free
              (ap (λ (ps : Procs). ps.pcb_free) only.rest ∙ ap (λ (ps : Procs). ps.pcb_free) tree)
              (All-map _ _ free (λ y o. only.same y o ∙ ap (λ (ps : Procs). ps.p_list y) tree)
                (Apart-sym free xs apart))
              ring
