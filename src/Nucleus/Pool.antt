-- ===== src/Nucleus/Pool.antt =====
-- The free descriptors of source/pcb.c through the operations that do not take one.
use jae_os.Prelude.{◌≡◌, refl, ap, List, Ptr, All-All, NotIn}
use jae_os.Clist.Ring.{Ring-frame, Agree}
use jae_os.Pcb.{Procs}
use jae_os.Pcb.Queue.{Apart}
use jae_os.Asl.View.{Entry}
use jae_os.Asl.Woken.{Outside}
use jae_os.Kernel.{Kernel}
use jae_os.Syscall.Process.Family.{IsChildren-same}
use jae_os.Nucleus.{Spare}

-- The header of the free list and the tree are the same.
pub record SameTree (m m' : Procs) : Type 0 where
  pub free : m'.pcb_free ≡ m.pcb_free
  pub children : m'.p_children ≡ m.p_children
  pub siblings : m'.p_siblings ≡ m.p_siblings
  pub parents : m'.p_parent ≡ m.p_parent

pub same_SameTree : (m : Procs) → SameTree m m
same_SameTree m = record { free = refl; children = refl; siblings = refl; parents = refl }

-- Then, where their links are the same and they are still in no queue, they are spare as before.
pub Spare-frame :
    (k k' : Kernel) (es es' : List Entry) (xs xs' free : List Ptr)
    → Spare k es xs free
    → SameTree k.tables.procs k'.tables.procs
    → Agree k'.tables.procs.p_list k.tables.procs.p_list free
    → Outside free es'
    → Apart free xs'
    → NotIn k'.current_process free
    → Spare k' es' xs' free
Spare-frame k k' es es' xs xs' free spare same links waiting ready current = record {
  ring = Ring-frame _ _ free same.free links spare.ring;
  not_waiting = waiting;
  not_ready = ready;
  not_current = current;
  valid = spare.valid;
  families = λ p ne le out.
      let (cs, kids, apart) = spare.families p ne le out in
      (
        cs,
        IsChildren-same k.tables.procs k'.tables.procs p cs (ap (λ f. f p) same.children)
            (All-All _ cs (λ q. (ap (λ f. f q) same.siblings, ap (λ f. f q) same.parents))) kids,
        apart,
      );
}

-- Where the processes are the same.
pub Spare-same :
    (k k' : Kernel) (es : List Entry) (xs free : List Ptr)
    → Spare k es xs free
    → k'.tables.procs ≡ k.tables.procs
    → k'.current_process ≡ k.current_process
    → Spare k' es xs free
Spare-same k k' es xs free spare same here =
    Spare-frame k k' es es xs xs free spare
      (record {
        free = ap (λ (m : Procs). m.pcb_free) same;
        children = ap (λ (m : Procs). m.p_children) same;
        siblings = ap (λ (m : Procs). m.p_siblings) same;
        parents = ap (λ (m : Procs). m.p_parent) same;
      })
      (All-All _ free (λ q. ap (λ (m : Procs). m.p_list q) same)) spare.not_waiting spare.not_ready
      (rw here spare.not_current)
