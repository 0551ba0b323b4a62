-- ===== src/Syscall/Process/Doomed.antt =====
-- What makes a family fit to be killed by terminate_children of source/syscall.c.
use jae_os.Prelude.{
  ◌≢◌, ap, ◌∙◌, List, ◌++◌, Ptr, null, All, All-All, All-map, All-both, All-append, All-append_left,
  All-append_right, NotIn, Distinct,
}
use jae_os.Arch.{Arch}
use jae_os.Pcb.{Procs}
use jae_os.Pcb.Alloc.{Free}
use jae_os.Pcb.Queue.{Apart}
use jae_os.Pcb.Tree.{TreeOnly}
use jae_os.Asl.View.{Entry, IsAsl}
use jae_os.Asl.Woken.{Outside, procs-IsAsl}
use jae_os.Kernel.{Kernel, set_procs}
use jae_os.Syscall.Process.Unblock.{Named}
use jae_os.Syscall.Process.Family.{Distinct-left, Distinct-right, Distinct-Apart}
use jae_os.Syscall.Process.Killed.{Killed}

-- The processes `qs` can be killed: they are different and none is free, and who names a semaphore
-- waits for it. The semaphore list and the list of free descriptors satisfy their invariants, and no
-- free descriptor is in a queue of the one.
pub record Doomed (k : Kernel) (es : List Entry) (fs free qs : List Ptr) : Type 0 where
  pub asl : IsAsl k.tables es fs
  pub ring : Free k.tables.procs free
  pub outside : Outside free es
  pub nonnull : NotIn null qs
  pub apart : Apart free qs
  pub named : All (Named k es) qs
  pub distinct : Distinct qs

pub Doomed-after :
    (a : Arch) (p : Ptr) (qs rs : List Ptr) (es es' : List Entry) (fs fs' free : List Ptr)
    (k k' : Kernel)
    → Doomed k es fs free (qs ++ rs)
    → Killed a p qs es es' fs' free k k'
    → Doomed k' es' fs' (free ++ qs) rs
Doomed-after a p qs rs es es' fs fs' free k k' i d =
    let others : Apart qs rs = Distinct-Apart qs rs i.distinct in
    record {
      asl = d.asl;
      ring = d.freed;
      outside = d.outside;
      nonnull = All-append_right _ qs rs i.nonnull;
      apart =
          All-both _ _ _ rs (λ y f o. All-append (λ x. x ≢ y) free qs f o)
            (All-append_right _ qs rs i.apart) others;
      named =
          All-both _ _ _ rs
            (λ y n o names none.
              n (λ e. names (ap (λ (ps : Procs). ps.p_cursem y) d.procs ∙ e)) (d.kept y o none))
            (All-append_right _ qs rs i.named) others;
      distinct = Distinct-right qs rs i.distinct;
    }

pub Doomed-left :
    (qs rs : List Ptr) (es : List Entry) (fs free : List Ptr) (k : Kernel)
    → Doomed k es fs free (qs ++ rs)
    → Doomed k es fs free qs
Doomed-left qs rs es fs free k i = record {
  asl = i.asl;
  ring = i.ring;
  outside = i.outside;
  nonnull = All-append_left _ qs rs i.nonnull;
  apart = All-append_left _ qs rs i.apart;
  named = All-append_left _ qs rs i.named;
  distinct = Distinct-left qs rs i.distinct;
}

-- The links of the tree do not matter.
pub Doomed-removed :
    (p r : Ptr) (xs qs : List Ptr) (es : List Entry) (fs free : List Ptr) (k : Kernel) (m : Procs)
    → Doomed k es fs free qs
    → TreeOnly p r xs k.tables.procs m
    → Doomed (set_procs m k) es fs free qs
Doomed-removed p r xs qs es fs free k m i only = record {
  asl = procs-IsAsl k.tables m es fs i.asl (
      All-All _ es (λ e. (
        All-All _ e.waiting (λ q. ap (λ (ps : Procs). ps.p_list q) only.rest),
        All-All _ e.waiting (λ q. ap (λ (ps : Procs). ps.p_cursem q) only.rest),
      )));
  ring = rw only.rest i.ring;
  outside = i.outside;
  nonnull = i.nonnull;
  apart = i.apart;
  named =
      All-map _ _ qs
        (λ y n names none. n (λ e. names (ap (λ (ps : Procs). ps.p_cursem y) only.rest ∙ e)) none)
        i.named;
  distinct = i.distinct;
}
