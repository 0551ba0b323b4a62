-- ===== src/Nucleus/Births.antt =====
-- create_process of source/syscall.c keeps each process in its place.
use jae_os.Prelude.{
  ◌≡◌, sym, ap, subst, ◌∙◌, ◌≢◌, ◌≤◌, ℕ, inl, inr, eq_cases, List, [], ◌∷◌, ◌++◌, Ptr, null,
  All-map, All-both, All-append, NotIn,
}
use jae_os.Arch.{Arch}
use jae_os.Clist.Ring.{Ring-Distinct}
use jae_os.Pcb.Queue.{Apart, Apart-sym}
use jae_os.Pcb.Tree.{IsChildren}
use jae_os.Asl.View.{Entry, IsAsl}
use jae_os.Asl.Woken.{procs-IsAsl}
use jae_os.Kernel.{Kernel}
use jae_os.Kernel.Runs.{Proceeds, proceeds, Proceeds-mono}
use jae_os.Syscall.Pid.Digits.{HasDigits}
use jae_os.Syscall.Process.{create_process}
use jae_os.Syscall.Process.Create.{Created, create_process-Created, create_process-full}
use jae_os.Syscall.Process.Family.{IsChildren-same}
use jae_os.Nucleus.{InPlace, Spare, Families, Sound}

module _ (a : Arch) (statep : Ptr) (n : ℕ) (k : Kernel) (es : List Entry) (fs xs : List Ptr)
    (x : Ptr) (ys cs : List Ptr) (i : InPlace k es fs xs (x ∷ ys))
    (kids : IsChildren k.tables.procs k.current_process cs) (apart : Apart (x ∷ ys) cs) (r : ℕ)
    (k' : Kernel) (d : Created a statep x ys cs xs n k r k') where
  here : k'.current_process ≡ k.current_process
  here = ap (λ (j : Kernel). j.current_process) d.rest

  once : NotIn x ys
  once = (Ring-Distinct _ _ i.spare.ring).0

  Created-IsAsl : IsAsl k'.tables es fs
  Created-IsAsl =
      subst (λ t. IsAsl t es fs) (sym (ap (λ (j : Kernel). j.tables) d.rest))
        (procs-IsAsl k.tables k'.tables.procs es fs i.queues.asl (
          All-both _ _ _ es
            (λ f idle ready.
              let free = Apart-sym f.waiting (x ∷ ys) idle in
              (
                All-both _ _ _ f.waiting d.links free (Apart-sym f.waiting xs ready),
                All-map _ _ f.waiting (λ q o. (d.others q λ e. o.0 (sym e)).cursem) free,
              ))
            i.spare.not_waiting i.queues.outside))

  -- The children of another process are not those of the current one.
  others_children :
      (p : Ptr) (ds : List Ptr)
      → p ≢ x
      → p ≢ k.current_process
      → IsChildren k.tables.procs p ds
      → Apart (x ∷ ys) ds
      → IsChildren k'.tables.procs p ds
  others_children p ds new other theirs idle =
      IsChildren-same k.tables.procs k'.tables.procs p ds (d.headers p new other)
        (All-both _ _ _ ds
          (λ q is o. (
            d.siblings q (
              o.0,
              All-map _ _ cs
                  (λ c ours e. other (sym is ∙ ap k.tables.procs.p_parent (sym e) ∙ ours))
                  kids.parents,
            ),
            d.parents q (λ e. o.0 (sym e)),
          ))
          theirs.parents idle)
        theirs

  Created-Families : Families k'.tables.procs ys
  Created-Families p ne le out = elim (eq_cases p x) [
    | inl e ↦ ([], subst (λ q. IsChildren k'.tables.procs q []) (sym e) d.childless, tt)
    | inr new ↦ elim (eq_cases p k.current_process) [
      | inl e ↦ (
        cs ++ x ∷ [],
        subst (λ q. IsChildren k'.tables.procs q (cs ++ x ∷ [])) (sym e) d.child,
        All-append _ cs (x ∷ []) (All-map _ _ cs (λ c o. o.1) apart) (once, tt),
      )
      | inr other ↦
          let (ds, theirs, idle) = i.spare.families p ne le ((λ e. new (sym e)), out) in
          (ds, others_children p ds new other theirs idle, All-map _ _ ds (λ c o. o.1) idle)
    ]
  ]

  Created-Spare : Spare k' es (xs ++ x ∷ []) ys
  Created-Spare = record {
    ring = d.left;
    not_waiting = All-map _ _ es (λ f o. o.1) i.spare.not_waiting;
    not_ready = All-append _ xs (x ∷ []) (All-map _ _ xs (λ q o. o.1) i.spare.not_ready) (once, tt);
    not_current = rw here i.spare.not_current.1;
    valid = i.spare.valid.1;
    families = Created-Families;
  }

  Created-InPlace : InPlace k' es fs (xs ++ x ∷ []) ys
  Created-InPlace = record {
    queues = record {
      asl = Created-IsAsl;
      ready = d.ready;
      outside =
          All-both _ _ _ es (λ f idle ready. All-append _ xs (x ∷ []) ready (idle.0, tt))
            i.spare.not_waiting i.queues.outside;
    };
    not_ready = rw here (All-append _ xs (x ∷ []) i.not_ready (i.spare.not_current.0, tt));
    not_waiting = rw here i.not_waiting;
    current_valid = rw here i.current_valid;
    ready_valid = All-append _ xs (x ∷ []) i.ready_valid (i.spare.valid.0, tt);
    spare = Created-Spare;
  }

module _ (a : Arch) (statep : Ptr) (n : ℕ) (k : Kernel) (statep_ne : statep ≢ null)
    (lives : k.current_process ≢ null) (few : n ≤ 8) (digits : HasDigits k.counter n) where
  birth :
      (es : List Entry) (fs xs free : List Ptr)
      → InPlace k es fs xs free
      → Proceeds (λ _ k'. Sound k') (create_process a statep k)
  birth es fs xs [] i =
      rw (create_process-full a statep k i.spare.ring) (proceeds (es, fs, xs, [], i))
  birth es fs xs (x ∷ ys) i =
      let s = i.spare in
      let (cs, kids, apart) = s.families k.current_process lives i.current_valid s.not_current in
      Proceeds-mono
        (create_process-Created a statep k x ys cs xs n s.ring kids i.queues.ready statep_ne lives
          s.not_current.0 (All-map _ _ cs (λ c o e. o.0 (sym e)) apart) s.not_ready few digits)
        λ r k' d. (
          es,
          fs,
          xs ++ x ∷ [],
          ys,
          Created-InPlace a statep n k es fs xs x ys cs i kids apart r k' d,
        )

  pub create_process-Sound : Sound k → Proceeds (λ _ k'. Sound k') (create_process a statep k)
  create_process-Sound (es, fs, xs, free, i) = birth es fs xs free i
