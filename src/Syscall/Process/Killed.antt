-- ===== src/Syscall/Process/Killed.antt =====
-- What has changed when some processes have been killed by terminate_children of source/syscall.c.
use jae_os.Prelude.{
  ◌≡◌, ◌≢◌, refl, sym, ap, ◌∙◌, subst, List, [], ◌∷◌, ◌++◌, append_assoc, append-nil, Ptr,
  All-append, All-append_left, All-append_right, All-at, NotIn,
}
use jae_os.Prelude.Int.{ℤ, pos, ◌-ℤ◌}
use jae_os.Arch.{Arch}
use jae_os.Pcb.{Procs}
use jae_os.Pcb.Alloc.{Free}
use jae_os.Pcb.Tree.{TreeOnly}
use jae_os.Asl.View.{Entry, IsAsl}
use jae_os.Asl.Insert.{NotWaiting}
use jae_os.Asl.Woken.{Outside}
use jae_os.Asl.Spec.{view}
use jae_os.Kernel.{Kernel, set_procs}
use jae_os.Syscall.Semaphore.Serve.{lowered}
use jae_os.Syscall.Process.Bury.{tolls, bury_all, bury_all-append, bury_all-one, bury_all-nobody}
use jae_os.Syscall.Process.Unblock.{SameLink}
use jae_os.Syscall.Process.Death.{Dead}
use jae_os.Syscall.Process.Family.{SameHeader, SameLinks}

-- `qs` have become free, in this order, and wait no more; the entries of the semaphore list are `es'`
-- now. In the tree only their links have changed, and the header of the children of `p`.
pub record Killed (a : Arch) (p : Ptr) (qs : List Ptr) (es es' : List Entry) (fs' free : List Ptr)
    (k k' : Kernel) : Type 0 where
  pub asl : IsAsl k'.tables es' fs'
  pub tolls_are :
      tolls (view es') k'.machine.memory k'.soft_block_count
      ≡ bury_all a k.tables.procs.res_wait qs (tolls (view es) k.machine.memory k.soft_block_count)
  pub freed : Free k'.tables.procs (free ++ qs)
  pub outside : Outside (free ++ qs) es'
  pub kept : (q : Ptr) → NotIn q qs → NotWaiting q es' → NotWaiting q es
  pub idle :
      (q : Ptr) → NotIn q qs → NotIn q free → NotWaiting q es → SameLink k k' q × NotWaiting q es'
  pub rest : k' ≡ record k {
    tables = k'.tables;
    process_count = lowered k.process_count qs;
    soft_block_count = k'.soft_block_count;
    machine = record k.machine { memory = k'.machine.memory };
  }
  pub procs : k'.tables.procs ≡ record k.tables.procs {
    p_list = k'.tables.procs.p_list;
    pcb_free = k'.tables.procs.pcb_free;
    p_parent = k'.tables.procs.p_parent;
    p_children = k'.tables.procs.p_children;
    p_siblings = k'.tables.procs.p_siblings;
  }
  pub headers : (q : Ptr) → q ≢ p → NotIn q qs → SameHeader k.tables.procs k'.tables.procs q
  pub links : (q : Ptr) → NotIn q qs → SameLinks k.tables.procs k'.tables.procs q

lowered-append : (n : ℤ) (qs rs : List Ptr) → lowered n (qs ++ rs) ≡ lowered (lowered n qs) rs
lowered-append n [] rs = refl
lowered-append n (q ∷ qs) rs = lowered-append (n -ℤ pos 1) qs rs

module _ (a : Arch) (p : Ptr) where
  pub nobody_Killed :
      (es : List Entry) (fs free : List Ptr) (k : Kernel)
      → IsAsl k.tables es fs
      → Free k.tables.procs free
      → Outside free es
      → Killed a p [] es es fs free k k
  nobody_Killed es fs free k i ring out = record {
    asl = i;
    tolls_are = sym (bury_all-nobody a k.tables.procs.res_wait _);
    freed = subst (Free k.tables.procs) (sym (append-nil free)) ring;
    outside = subst (λ zs. Outside zs es) (sym (append-nil free)) out;
    kept = λ q _ n. n;
    idle = λ q _ _ n. (refl, n);
    rest = refl;
    procs = refl;
    headers = λ q _ _. refl;
    links = λ q _. (refl, refl);
  }

  pub Dead-Killed :
      (es es' : List Entry) (fs' free : List Ptr) (k k' : Kernel)
      → Dead a p es es' fs' free k k'
      → Killed a p (p ∷ []) es es' fs' free k k'
  Dead-Killed es es' fs' free k k' d = record {
    asl = d.asl;
    tolls_are = d.tolls_are ∙ sym (bury_all-one a k.tables.procs.res_wait p _);
    freed = d.freed;
    outside = d.outside;
    kept = λ q out n. d.kept q (λ e. out.0 (sym e)) n;
    idle = λ q out f n. d.idle q (λ e. out.0 (sym e)) f n;
    rest = d.rest;
    procs =
        d.procs
        ∙ ap
            (λ (ps : Procs). record k.tables.procs {
              p_list = k'.tables.procs.p_list;
              pcb_free = k'.tables.procs.pcb_free;
              p_parent = ps.p_parent;
              p_children = ps.p_children;
              p_siblings = ps.p_siblings;
            })
            (sym d.procs);
    headers = λ q _ _. ap (λ (ps : Procs). ps.p_children q) d.procs;
    links = λ q _.
        (ap (λ (ps : Procs). ps.p_siblings q) d.procs, ap (λ (ps : Procs). ps.p_parent q) d.procs);
  }

  -- Some processes, and then others.
  pub Killed-append :
      (qs rs : List Ptr) (es es1 es2 : List Entry) (fs1 fs2 free : List Ptr) (k k1 k2 : Kernel)
      → Killed a p qs es es1 fs1 free k k1
      → Killed a p rs es1 es2 fs2 (free ++ qs) k1 k2
      → Killed a p (qs ++ rs) es es2 fs2 free k k2
  Killed-append qs rs es es1 es2 fs1 fs2 free k k1 k2 d1 d2 = record {
    asl = d2.asl;
    tolls_are =
        d2.tolls_are
        ∙ ap
            (λ (ps : Procs).
              bury_all a ps.res_wait rs (tolls (view es1) k1.machine.memory k1.soft_block_count))
            d1.procs
        ∙ ap (bury_all a k.tables.procs.res_wait rs) d1.tolls_are
        ∙ sym (bury_all-append a k.tables.procs.res_wait qs rs _);
    freed = subst (Free k2.tables.procs) (append_assoc free qs rs) d2.freed;
    outside = subst (λ zs. Outside zs es2) (append_assoc free qs rs) d2.outside;
    kept = λ q out n.
        d1.kept q (All-append_left _ qs rs out) (d2.kept q (All-append_right _ qs rs out) n);
    idle = λ q out f n.
        let here = All-append_left _ qs rs out in
        let (l1, n1) = d1.idle q here f n in
        let (l2, n2) = d2.idle q (All-append_right _ qs rs out) (All-append _ free qs f here) n1 in
        (l2 ∙ l1, n2);
    rest =
        d2.rest
        ∙ ap
            (λ (j : Kernel). record j {
              tables = k2.tables;
              process_count = lowered j.process_count rs;
              soft_block_count = k2.soft_block_count;
              machine = record j.machine { memory = k2.machine.memory };
            })
            d1.rest
        ∙ ap
            (λ n. record k {
              tables = k2.tables;
              process_count = n;
              soft_block_count = k2.soft_block_count;
              machine = record k.machine { memory = k2.machine.memory };
            })
            (sym (lowered-append k.process_count qs rs));
    procs =
        d2.procs
        ∙ ap
            (λ (ps : Procs). record ps {
              p_list = k2.tables.procs.p_list;
              pcb_free = k2.tables.procs.pcb_free;
              p_parent = k2.tables.procs.p_parent;
              p_children = k2.tables.procs.p_children;
              p_siblings = k2.tables.procs.p_siblings;
            })
            d1.procs;
    headers = λ q ne out.
        d2.headers q ne (All-append_right _ qs rs out)
        ∙ d1.headers q ne (All-append_left _ qs rs out);
    links = λ q out.
        let l2 = d2.links q (All-append_right _ qs rs out) in
        let l1 = d1.links q (All-append_left _ qs rs out) in (l2.0 ∙ l1.0, l2.1 ∙ l1.1);
  }

  -- The root of a family that has been killed itself counts as one of them.
  pub Killed-root :
      (r : Ptr) (qs : List Ptr) (es es' : List Entry) (fs' free : List Ptr) (k k' : Kernel)
      → Killed a r (qs ++ r ∷ []) es es' fs' free k k'
      → Killed a p (qs ++ r ∷ []) es es' fs' free k k'
  Killed-root r qs es es' fs' free k k' d = record {
    asl = d.asl;
    tolls_are = d.tolls_are;
    freed = d.freed;
    outside = d.outside;
    kept = d.kept;
    idle = d.idle;
    rest = d.rest;
    procs = d.procs;
    headers = λ q _ out. d.headers q (λ e. All-at _ qs r [] out (sym e)) out;
    links = d.links;
  }

  -- A child that is killed has been taken from its parent before.
  pub Killed-removed :
      (r : Ptr) (xs qs : List Ptr) (es es' : List Entry) (fs' free : List Ptr) (k k' : Kernel)
      (m : Procs)
      → TreeOnly p r xs k.tables.procs m
      → ((q : Ptr) → NotIn q qs → (q ≢ r) × NotIn q xs)
      → Killed a p qs es es' fs' free (set_procs m k) k'
      → Killed a p qs es es' fs' free k k'
  Killed-removed r xs qs es es' fs' free k k' m only away d = record {
    asl = d.asl;
    tolls_are =
        d.tolls_are
        ∙ ap
            (λ (ps : Procs).
              bury_all a ps.res_wait qs (tolls (view es) k.machine.memory k.soft_block_count))
            only.rest;
    freed = d.freed;
    outside = d.outside;
    kept = d.kept;
    idle = λ q out f n.
        let (l, gone) = d.idle q out f n in (l ∙ ap (λ (ps : Procs). ps.p_list q) only.rest, gone);
    rest = d.rest;
    procs =
        d.procs
        ∙ ap
            (λ (ps : Procs). record ps {
              p_list = k'.tables.procs.p_list;
              pcb_free = k'.tables.procs.pcb_free;
              p_parent = k'.tables.procs.p_parent;
              p_children = k'.tables.procs.p_children;
              p_siblings = k'.tables.procs.p_siblings;
            })
            only.rest;
    headers = λ q ne out. d.headers q ne out ∙ only.headers q ne;
    links = λ q out.
        let (ne, o) = away q out in
        let l = d.links q out in (l.0 ∙ only.siblings q o, l.1 ∙ only.parents q ne);
  }
